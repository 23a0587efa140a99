-- ===== src/Lib.antt =====
-- The stock and fulfilment core of DMIS, a disaster management inventory system: what an agency is
-- sent against a relief request, from which batches, and what that does to the stock.
--
-- Parts and files, with paths from the repository's root:
-- * Store, the rows of app/db/models.py that the services read and write, and the unit of work as
--   one record of tables (Db). Store/Query has the queries (`filter_by(...).first()`, `func.sum`),
--   Store/Invariant the well-formed states: IsCovered is the CHECK constraint c_itembatch_2b, Agrees
--   and AgreesUsable say that a row of `inventory` is the sum of the batches of its item and
--   warehouse. Store/Samples has rows for tests.
-- * Reservation, app/services/inventory_reservation_service.py: Maps (the allocations of a package as
--   dicts: get_current_reservations, get_current_batch_reservations), Reserve (reserve_inventory),
--   Release (release_all_reservations), Commit (commit_inventory), Cancel (cancel_relief_package).
-- * Dispatch, app/services/dispatch_service.py: Plan (_get_lo_plan, build_lm_plan_from_form,
--   build_lm_plan_from_pkg_items), Steps (_undo_lo_reservations, _overwrite_package_items,
--   _deplete_usable_stock), Submit (_update_dispatch_records, submit_for_dispatch).
-- * Allocation, app/services/batch_allocation_service.py: Batches (the query and the orders), Auto
--   (auto_allocate_batches, get_batches_by_warehouse, assign_priority_groups), Drawer
--   (get_limited_batches_for_drawer), Validate (validate_batch_allocation).
-- * ItemStatus, app/services/item_status_service.py.
-- * Phone, app/core/phone_utils.py: the format of telephone numbers. A number is a list of code points.
-- * Lock, app/services/fulfillment_lock_service.py. Expiry releases reservations by the Reservation
--   module's function.
-- * Request, app/services/relief_request_service.py: Desk (status codes, tables), Draft
--   (create_draft_request, add_or_update_request_item, delete_request_item, submit_request), Review
--   (submit_eligibility_decision and the queue), Close (check_and_autoclose_request,
--   can_process_request, get_workflow_steps). Request/Moves has the calls as data and the relation
--   between statuses, Request/Reachable the states that the calls reach.
-- * Packaging, app/features/packaging.py: Form (the tests on one item's part of the form), Process
--   (_process_allocations), Draft (_save_draft, cancel_preparation, _validate_version_nbr), Submit
--   (_submit_for_approval, _send_for_dispatch), Approve (_save_draft_approval,
--   _approve_and_dispatch), Review (review_approval), Routes (prepare_package, approve_package,
--   cancel_package, submit_for_dispatch as submit_dispatch, mark_handover). The texts of default
--   reasons and the user's roles are arguments, and form fields stand parsed.
-- * DonationIntake, app/features/donation_intake.py: Rows (tables and form fields), Check
--   (the tests of _process_verification_submission), Verify (its writes, verify_intake), Line and
--   Entry (the tests of _process_entry_submission, _get_goods_items_for_donation), Record (its
--   writes, intake_form). Form fields stand parsed, str.upper is an argument, and the database's
--   answer at the commit, where a constraint may fail, is a function of what was written.
-- * Donations, app/features/donations.py: Form (the tests of verify_donation_detail), Verify (its writes),
--   Create (create_donation), Items (the operations on one item, delete_donation), Edit
--   (edit_donation, with safe_amount and safe_quantity of app/security/param_validation.py). It shares
--   the tables of DonationIntake/Rows. What storing the uploaded documents ends with is an argument.
-- * Currency, app/services/currency_service.py: Rates (CurrencyService on its table), History (what
--   the table stands for).
-- * LogSanitizer, app/security/log_sanitizer.py, on texts as lists of code points.
-- * Base, shared helpers: Boolean tests, lists, dicts, tables, sorting, texts, and Action, the calls
--   that change a state and may fail.
--
-- How the parts meet: the services share the tables. A request is made and reviewed (Request). A
-- draft of a package (Packaging) reserves stock (Reservation); the package is dispatched (Dispatch)
-- or cancelled (Reservation/Cancel); Allocation only reads; Lock guards the preparation of a request
-- and gives its reservations back. A donation is verified
-- (Donations), and its goods come to the stock by DonationIntake.
--
-- Choices of the model:
-- * A call is a function from the state to a result and a state. A failure keeps what was written
--   before it, as a SQLAlchemy session does until a rollback; where the code itself rolls back
--   (cancel_relief_package, the handlers of Packaging), the model does. An exception that no
--   handler catches ends the session, which is a rollback too.
-- * Quantities are natural numbers of ten-thousandths: the columns are numeric(15,4), NOT NULL and
--   CHECKed not to be negative. The columns of `inventory` are numeric(12,2); the rounding of a sum
--   stored there is not modelled. Signed comparisons are written with both sides moved over the
--   subtractions; where Python clamps with max(0, ...), subtraction on natural numbers does.
-- * A CHAR(1) code is the number of its character, a date its ordinal, a time a number. A call reads
--   the clock once, as `now` or `today`.
-- * Key columns are NOT NULL, so the tests for None on them have no counterpart.
-- * A Python dict is a list of pairs in insertion order, a set a list without repetition. The order in
--   which Python runs through a set is not fixed; the model takes one, and the lemmas on loops hold
--   for any list. Every loop is structural recursion over a list: there is no fuel.
-- * `.first()` and `.all()` follow the order of the list.
--
-- Not modelled: the other CHECK constraints, which would turn a flush into an exception, and the
-- handlers of database exceptions; row locks and interleavings of sessions, but for the race that
-- acquire_lock handles; the automatic version column; log lines and the wording of messages. Texts
-- whose characters do not matter are strings, the reason of a decision is a list of code points. The
-- other web routes, notifications, reports and the security middleware are not part of the library.
pub mod Base
pub mod Currency
pub mod Store
pub mod Reservation
pub mod ItemStatus
pub mod Allocation
pub mod Dispatch
pub mod DonationIntake
pub mod Donations
pub mod Lock
pub mod Request
pub mod Packaging
pub mod Phone
pub mod LogSanitizer
