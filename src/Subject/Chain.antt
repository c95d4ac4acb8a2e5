-- ===== src/Subject/Chain.antt =====
-- Reading a chain that may change while it is read. An answer depends on the moment of the call, a
-- number that each call makes one greater, and code that throws ends with an error. The calls of a
-- `Promise.all` stand one after the other: the answers are any functions of the moment, so for each
-- order of the calls there are answers that give every call the same.
use g_sentinel.Base.{
  ℕ, String, Bool, true, false, Option, none, some, ◌+◌, Result, ok, err, if◌then◌else◌, ◌≡◌, refl,
  subst, ap,
}

-- What the code throws, by what its message is about.
pub data SubjectError : Type 0 where
  call_failed invalid_address malformed_code invalid_block_hash invalid_block_number : SubjectError
  block_replaced block_reorganized invalid_delegation no_live_code wrong_kind : SubjectError
  block_mismatch out_of_range code_drift invalid_word zero_target self_target : SubjectError
  invalid_response binding_mismatch report_mismatch : SubjectError

-- The block that `getBlock` answers.
pub record Block : Type 0 where
  pub number : ℕ
  pub hash : String

pub record AccountHistory : Type 0 where
  pub is_complete : Bool
  pub observed_transactions : ℕ

-- `SubjectChainAdapter`: the moment first, `none` where the call throws. A block is `none` for
-- `null`, and the adapter may have no `getHistory`.
pub record Adapter : Type 0 where
  pub get_block : ℕ → ℕ → Option (Option Block)
  pub get_code : ℕ → String → ℕ → Option String
  pub get_storage : ℕ → String → String → ℕ → Option String
  pub call : ℕ → String → String → ℕ → Option String
  pub get_transaction_count : ℕ → String → ℕ → Option ℕ
  pub get_balance : ℕ → String → ℕ → Option ℕ
  pub get_history : Option (ℕ → String → ℕ → Option AccountHistory)

-- `getAddress`, `keccak256` and `isHexString` of ethers, and the length of a text in UTF-8 bytes.
pub record Tools : Type 0 where
  pub get_address : String → Option String
  pub keccak : String → String
  pub is_hex_string : String → Bool
  pub byte_length : String → ℕ

-- What a reading gives, with the moment after it.
abbrev pub Chain : Type 0 → Type 0
Chain A = ℕ → Result SubjectError (A × ℕ)

unfoldable pub then_at :
    {A B : Type 0} → Result SubjectError (A × ℕ) → (A → Chain B) → Result SubjectError (B × ℕ)
then_at (ok (a, moment)) k = k a moment
then_at (err e) k = err e

infixl 5 ◌>>=◌ ◌>>◌
abbrev pub ◌>>=◌ : {A B : Type 0} → Chain A → (A → Chain B) → Chain B
m >>= k = λ moment. then_at (m moment) k

abbrev pub ◌>>◌ : {B : Type 0} → Chain (Unit {0}) → Chain B → Chain B
m >> k = m >>= λ _. k

abbrev pub pure : {A : Type 0} → A → Chain A
pure a = λ moment. ok (a, moment)

unfoldable pub throw_if_at : Bool → SubjectError → ℕ → Result SubjectError (Unit {0} × ℕ)
throw_if_at true e moment = err e
throw_if_at false e moment = ok (tt, moment)

-- `if (bad) throw e`
abbrev pub throw_if : Bool → SubjectError → Chain (Unit {0})
throw_if bad e = λ moment. throw_if_at bad e moment

abbrev pub given_at : {A : Type 0} → Option A → SubjectError → ℕ → Result SubjectError (A × ℕ)
given_at none e moment = err e
given_at (some a) e moment = ok (a, moment)

-- The value, or the error where there is none.
abbrev pub given : {A : Type 0} → Option A → SubjectError → Chain A
given o e = λ moment. given_at o e moment

-- A call, which takes a moment.
abbrev pub ask : {A : Type 0} → (ℕ → Option A) → Chain A
ask answer = λ moment. given_at (answer moment) call_failed (moment + 1)

-- If there is a result, then `Q` holds of it and of the moment after it.
pub record Yields {A : Type 0} (r : Result SubjectError (A × ℕ)) (Q : A → ℕ → Type 0) : Type 0 where
  pub holds : (a : A) (after : ℕ) → r ≡ ok (a, after) → Q a after

abbrev HoldsOf : {A : Type 0} → (A → ℕ → Type 0) → Result SubjectError (A × ℕ) → Type 0
HoldsOf Q (ok (a, after)) = Q a after
HoldsOf Q (err e) = Unit

abbrev value_of : {A : Type 0} → A → Result SubjectError (A × ℕ) → Option A
value_of b (ok (a, after)) = some a
value_of b (err e) = some b

abbrev after_of : {A : Type 0} → ℕ → Result SubjectError (A × ℕ) → ℕ
after_of moment (ok (a, after)) = after
after_of moment (err e) = moment

pub given_at-some :
    {A : Type 0} (o : Option A) (e : SubjectError) (moment : ℕ) (a : A) (after : ℕ)
    → given_at o e moment ≡ ok (a, after)
    → (o ≡ some a) × (moment ≡ after)
given_at-some none e moment a after h = cc
given_at-some (some b) e moment a after h =
    (ap (λ r. value_of b r) h, ap (λ r. after_of moment r) h)

pub pure-Yields :
    {A : Type 0} {Q : A → ℕ → Type 0} {a : A} {after : ℕ} → Q a after → Yields (ok (a, after)) Q
pure-Yields {Q = Q} q = record { holds = λ b t e. subst (λ r. HoldsOf Q r) e q }

pub then-Yields :
    {A B : Type 0} {Q : A → ℕ → Type 0} (r : Result SubjectError (B × ℕ)) {k : B → Chain A}
    → ((b : B) (moment : ℕ) → r ≡ ok (b, moment) → Yields (k b moment) Q)
    → Yields (then_at r k) Q
unfolding then_at
then-Yields (ok (b, moment)) f = f b moment refl
then-Yields (err x) f = record { holds = λ a after e. cc }

pub throw_if_at-false :
    (bad : Bool) (e : SubjectError) (moment : ℕ) (u : Unit {0}) (after : ℕ)
    → throw_if_at bad e moment ≡ ok (u, after)
    → (bad ≡ false) × (moment ≡ after)
unfolding throw_if_at
throw_if_at-false true e moment u after h = cc
throw_if_at-false false e moment u after h = (refl, ap (λ r. after_of moment r) h)

pub throw_if-Yields :
    {A : Type 0} {Q : A → ℕ → Type 0} (bad : Bool) (e : SubjectError) (k : Chain A) {moment : ℕ}
    → (bad ≡ false → Yields (k moment) Q)
    → Yields (then_at (throw_if_at bad e moment) (λ _. k)) Q
throw_if-Yields {Q = Q} bad e k {moment = moment} f =
    then-Yields (throw_if_at bad e moment) λ u after h.
      let (is_false, same) = throw_if_at-false bad e moment u after h in
      subst (λ t. Yields (k t) Q) same (f is_false)

pub if-Yields :
    {A : Type 0} {Q : A → ℕ → Type 0} (b : Bool) (x y : Chain A) {moment : ℕ}
    → (b ≡ true → Yields (x moment) Q)
    → (b ≡ false → Yields (y moment) Q)
    → Yields ((if b then x else y) moment) Q
if-Yields true x y then_x else_y = then_x refl
if-Yields false x y then_x else_y = else_y refl
