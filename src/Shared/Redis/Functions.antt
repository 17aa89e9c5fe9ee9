-- ===== src/Shared/Redis/Functions.antt =====
-- A store of functions that meets the Redis interface, so that its laws can hold.
use Prim.Native.Nat.{ℕ}
use Prim.Native.String.{String}
use mathlib.Core.Path.{◌≡◌, refl}
use mathlib.Core.Logic.{inl, inr}
use mathlib.Core.Bool.{true, false, not, ◌&&◌}
use mathlib.Core.Option.{Option, none, some}
use mathlib.Core.List.{List, [], ◌∷◌}
use native.Mathlib.Omega.{arith}
use campus_id.Shared.Tests.{◌==◌, ==_iff, if◌then◌else◌, Bool-cases}
use campus_id.Shared.Lists.{contains, filter}
use campus_id.Shared.Redis.Model.{Key, same, same_iff, Redis, lapse, expiring}

contains-filter_ne :
    (m x : String) (xs : List String)
    → contains x (filter (λ y. not (y == m)) xs) ≡ (if m == x then false else contains x xs)
contains-filter_ne m x [] = ground arith
contains-filter_ne m x (y ∷ ys) =
    ground (arith, contains-filter_ne m x ys, ==_iff y m, ==_iff m x, ==_iff y x)

pub record Functions : Type 0 where
  pub texts : Key → Option (String × ℕ)
  pub sets : Key → List String

abbrev put {ℓ} : {A : Type ℓ} → Key → A → (Key → A) → Key → A
put k a f j = if same k j then a else f j

abbrev pub empty : Functions
empty = record { texts = λ k. none; sets = λ k. [] }

abbrev set_op : Key → String → ℕ → Functions → Functions
set_op k v ex s = record { texts = put k (some (v, ex)) s.texts; sets = put k [] s.sets }

abbrev delete_op : Key → Functions → Functions
delete_op k s = record { texts = put k none s.texts; sets = put k [] s.sets }

abbrev sadd_op : Key → String → Functions → Functions
sadd_op k m s = record s { sets = put k (m ∷ s.sets k) s.sets }

abbrev srem_op : Key → String → Functions → Functions
srem_op k m s = record s { sets = put k (filter (λ y. not (y == m)) (s.sets k)) s.sets }

abbrev expire_op : Key → ℕ → Functions → Functions
expire_op k n s = record s { texts = put k (expiring n (s.texts k)) s.texts }

abbrev elapse_op : ℕ → Functions → Functions
elapse_op n s = record s { texts = λ k. lapse n (s.texts k) }

pub sadd_law :
    (k j : Key) (m x : String) (s : Functions)
    → contains x ((sadd_op k m s).sets j)
      ≡ (if same k j && (m == x) then true else contains x (s.sets j))
sadd_law k j m x s = elim (Bool-cases (same k j)) [
  | inl e ↦ let p = (same_iff k j).0 e in rw e (rw p (ground arith))
  | inr e ↦ rw e
]

pub srem_law :
    (k j : Key) (m x : String) (s : Functions)
    → contains x ((srem_op k m s).sets j)
      ≡ (if same k j && (m == x) then false else contains x (s.sets j))
srem_law k j m x s = elim (Bool-cases (same k j)) [
  | inl e ↦ let p = (same_iff k j).0 e in rw e (rw p (contains-filter_ne m x (s.sets j)))
  | inr e ↦ rw e
]

pub expire_law :
    (k j : Key) (n : ℕ) (s : Functions)
    → (expire_op k n s).texts j ≡ (if same k j then expiring n (s.texts j) else s.texts j)
expire_law k j n s = elim (Bool-cases (same k j)) [
  | inl e ↦ let p = (same_iff k j).0 e in rw e (rw p)
  | inr e ↦ rw e
]

pub member_set_law :
    (k j : Key) (v x : String) (ex : ℕ) (s : Functions)
    → contains x ((set_op k v ex s).sets j) ≡ (if same k j then false else contains x (s.sets j))
member_set_law k j v x ex s = ground arith

pub member_delete_law :
    (k j : Key) (x : String) (s : Functions)
    → contains x ((delete_op k s).sets j) ≡ (if same k j then false else contains x (s.sets j))
member_delete_law k j x s = ground arith

abbrev pub function_redis : Redis
function_redis = record {
  Store = Functions;
  text_at = λ s. s.texts;
  members_at = λ s. s.sets;
  set = set_op;
  delete = delete_op;
  sadd = sadd_op;
  srem = srem_op;
  expire = expire_op;
  elapse = elapse_op;
  text-set = λ k j v ex s. refl;
  text-delete = λ k j s. refl;
  text-sadd = λ k j m s. refl;
  text-srem = λ k j m s. refl;
  text-expire = expire_law;
  text-elapse = λ n j s. refl;
  member-set = member_set_law;
  member-delete = member_delete_law;
  member-sadd = sadd_law;
  member-srem = srem_law;
  member-expire = λ k j x n s h. refl;
}
