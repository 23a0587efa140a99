-- ===== src/Base/Action.antt =====
-- A service call inside a unit of work: it changes the session's state, and ends with a result or
-- with a failure. What was written before a failure stays written until a rollback.
use mathlib.Core.List.{List, [], ◌∷◌}
use dmis_feature_branch.Base.Tests.{⊤}
use dmis_feature_branch.Base.Lists.{All}

pub data Result (E A : Type 0) : Type 0 where
  ok : A → Result E A
  err : E → Result E A

abbrev pub Action : Type 0 → Type 0 → Type 0 → Type 0
Action S E A = S → Result E A × S

-- how a call goes on after another
abbrev pub next : {S E A B : Type 0} → (A → Action S E B) → Result E A × S → Result E B × S
next f (ok a, s) = f a s
next f (err e, s) = (err e, s)

infixl 5 ◌>>=◌ ◌>>◌
abbrev pub ◌>>=◌ : {S E A B : Type 0} → Action S E A → (A → Action S E B) → Action S E B
◌>>=◌ m f s = next f (m s)

abbrev pub ◌>>◌ : {S E A B : Type 0} → Action S E A → Action S E B → Action S E B
m >> k = m >>= λ _. k

module _ {S E : Type 0} where
  abbrev pub pure : {A : Type 0} → A → Action S E A
  pure a s = (ok a, s)

  abbrev pub raise : {A : Type 0} → E → Action S E A
  raise e s = (err e, s)

  abbrev pub gets : {A : Type 0} → (S → A) → Action S E A
  gets f s = (ok (f s), s)

  abbrev pub modifies : (S → S) → Action S E ⊤
  modifies f s = (ok tt, f s)

  -- What holds at each end of `m` and is kept by `f` holds after both.
  pub >>=-keeps {ℓ} :
      {A B : Type 0} (P : S → Type ℓ) (m : Action S E A) (f : A → Action S E B) (s : S)
      → P (m s).1
      → ((a : A) (s' : S) → P s' → P (f a s').1)
      → P ((m >>= f) s).1
  >>=-keeps {A} {B} P m f s p h = branch (m s).0 (m s).1 p
    where
      branch : (r : Result E A) (s' : S) → P s' → P (next {A = A} {B = B} f (r, s')).1
      branch (ok a) s' p = h a s' p
      branch (err e) s' p = p

  -- `for k in ks: body(k)`, where the body may return early with a failure
  unfoldable pub for_each : {K : Type 0} → (K → Action S E ⊤) → List K → Action S E ⊤
  for_each body [] s = (ok tt, s)
  for_each body (k ∷ ks) s = (body k >>= λ _ s'. for_each body ks s') s

  -- What every round keeps, the loop keeps, however it ends.
  pub for_each-keeps {ℓ} :
      {K : Type 0} (P : S → Type ℓ) (body : K → Action S E ⊤)
      → ((k : K) (s : S) → P s → P (body k s).1)
      → (ks : List K) (s : S) → P s
      → P (for_each body ks s).1
  unfolding for_each
  for_each-keeps P body h [] s p = p
  for_each-keeps P body h (k ∷ ks) s p =
      >>=-keeps P (body k) (λ _ s'. for_each body ks s') s (h k s p)
        (λ _ s' q. for_each-keeps P body h ks s' q)

  -- `R` holds of the state if the call ended well.
  abbrev pub Ends {ℓ} : {A : Type 0} → (S → Type ℓ) → Result E A × S → Type ℓ
  Ends R (ok _, s) = R s
  Ends R (err _, s) = Unit

  pub >>=-Ends {ℓ κ} :
      {A B : Type 0} (P : S → Type ℓ) (Q : S → Type κ) (m : Action S E A) (f : A → Action S E B)
      (s : S)
      → Ends P (m s)
      → ((a : A) (s' : S) → P s' → Ends Q (f a s'))
      → Ends Q ((m >>= f) s)
  >>=-Ends {A} {B} P Q m f s p h = branch (m s).0 (m s).1 p
    where
      branch : (r : Result E A) (s' : S) → Ends {A = A} P (r, s') → Ends {A = B} Q (next f (r, s'))
      branch (ok a) s' p = h a s' p
      branch (err e) s' p = tt

  -- The loop rule: `P ks` is what holds when `ks` are left to do.
  pub for_each-Ends {ℓ} :
      {K : Type 0} (P : List K → S → Type ℓ) (body : K → Action S E ⊤)
      → ((k : K) (ks : List K) (s : S) → P (k ∷ ks) s → Ends (P ks) (body k s))
      → (ks : List K) (s : S) → P ks s
      → Ends (P []) (for_each body ks s)
  unfolding for_each
  for_each-Ends P body h [] s p = p
  for_each-Ends P body h (k ∷ ks) s p =
      >>=-Ends (P ks) (P []) (body k) (λ _ s'. for_each body ks s') s (h k ks s p)
        (λ _ s' q. for_each-Ends P body h ks s' q)

  pub Ends-imp {ℓ κ} :
      {A : Type 0} (P : S → Type ℓ) (Q : S → Type κ) (r : Result E A × S)
      → ((s : S) → P s → Q s)
      → Ends P r
      → Ends Q r
  Ends-imp P Q (ok a, s) h p = h s p
  Ends-imp P Q (err e, s) h p = tt

  pub Ends-all {ℓ} : {A : Type 0} (P : S → Type ℓ) (r : Result E A × S) → P r.1 → Ends P r
  Ends-all P (ok a, s) p = p
  Ends-all P (err e, s) p = tt

  -- The loop rule for rounds that need a fact of their element.
  pub for_each-All {ℓ κ} :
      {K : Type 0} (G : K → Type κ) (P : S → Type ℓ) (body : K → Action S E ⊤)
      → ((k : K) (s : S) → G k → P s → Ends P (body k s))
      → (ks : List K) (s : S) → All G ks
      → P s
      → Ends P (for_each body ks s)
  unfolding for_each
  for_each-All G P body h [] s g p = p
  for_each-All G P body h (k ∷ ks) s g p =
      >>=-Ends P P (body k) (λ _ s'. for_each body ks s') s (h k s g.0 p)
        (λ _ s' q. for_each-All G P body h ks s' g.1 q)

  -- `m` ends in `P` whenever it ends well.
  abbrev pub Keeps {ℓ} : {A : Type 0} → (S → Type ℓ) → Action S E A → Type ℓ
  Keeps P m = (s : S) → P s → Ends P (m s)

  pub >>=-Keeps {ℓ} :
      {A B : Type 0} (P : S → Type ℓ) (m : Action S E A) (f : A → Action S E B)
      → Keeps P m
      → ((a : A) → Keeps P (f a))
      → Keeps P (m >>= f)
  >>=-Keeps P m f h k s p = >>=-Ends P P m f s (h s p) k
