-- ===== src/Currency.antt =====
-- app/services/currency_service.py: conversion of amounts to Jamaican dollars with the rates of the
-- table currency_rate. A rate is counted in hundred-millionths, the scale of its column; `str.upper`
-- is an argument; dates are day ordinals.
pub mod Rates
pub mod History
mod Tests
pub use Rates.*
