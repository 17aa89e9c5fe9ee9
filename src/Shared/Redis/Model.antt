-- ===== src/Shared/Redis/Model.antt =====
-- The interface to Redis, its derived commands, and a store of functions that meets it.
use Prim.Native.Nat.{ℕ, ◌-◌, ◌<◌}
use Prim.Native.String.{String}
use mathlib.Core.Path.{◌≡◌, refl}
use mathlib.Core.Logic.{◌↔◌}
use mathlib.Core.Bool.{Bool, true, false, ◌&&◌}
use mathlib.Core.Option.{Option, none, some}
use mathlib.Core.List.{List}
use native.Mathlib.Omega.{arith}
use campus_id.Shared.Tests.{◌==◌, ==_iff, ==_self, ltb, if◌then◌else◌}
use campus_id.Shared.Lists.{contains}

-- A key: the text of the prefix followed by the name.
pub record Key : Type 0 where
  pub prefix : String
  pub name : String

abbrev pub same : Key → Key → Bool
same j k = (j.prefix == k.prefix) && (j.name == k.name)

pub same_iff : (j k : Key) → (same j k ≡ true) ↔ (j ≡ k)
same_iff j k = (
  (λ h. ground (arith, ==_iff j.prefix k.prefix, ==_iff j.name k.name)),
  (λ e. rw e (ground (arith, ==_self k.prefix, ==_self k.name))),
)

pub same_self : (k : Key) → same k k ≡ true
same_self k = (same_iff k k).1 refl

-- An entry after some seconds: gone when its time to live has run out.
abbrev pub lapse : ℕ → Option (String × ℕ) → Option (String × ℕ)
lapse n none = none
lapse n (some (v, left)) = if ltb n left then some (v, left - n) else none

abbrev pub expiring : ℕ → Option (String × ℕ) → Option (String × ℕ)
expiring n none = none
expiring n (some (v, left)) = some (v, n)

pub record Redis : Type 1 where
  pub Store : Type 0
  pub text_at : Store → Key → Option (String × ℕ)
  pub members_at : Store → Key → List String
  pub set : Key → String → ℕ → Store → Store
  pub delete : Key → Store → Store
  pub sadd : Key → String → Store → Store
  pub srem : Key → String → Store → Store
  pub expire : Key → ℕ → Store → Store
  pub elapse : ℕ → Store → Store
  pub text-set :
      (k j : Key) (v : String) (ex : ℕ) (s : Store)
      → text_at (set k v ex s) j ≡ (if same k j then some (v, ex) else text_at s j)
  pub text-delete :
      (k j : Key) (s : Store) → text_at (delete k s) j ≡ (if same k j then none else text_at s j)
  pub text-sadd : (k j : Key) (m : String) (s : Store) → text_at (sadd k m s) j ≡ text_at s j
  pub text-srem : (k j : Key) (m : String) (s : Store) → text_at (srem k m s) j ≡ text_at s j
  pub text-expire :
      (k j : Key) (n : ℕ) (s : Store)
      → text_at (expire k n s) j ≡ (if same k j then expiring n (text_at s j) else text_at s j)
  pub text-elapse : (n : ℕ) (j : Key) (s : Store) → text_at (elapse n s) j ≡ lapse n (text_at s j)
  pub member-set :
      (k j : Key) (v x : String) (ex : ℕ) (s : Store)
      → contains x (members_at (set k v ex s) j)
        ≡ (if same k j then false else contains x (members_at s j))
  pub member-delete :
      (k j : Key) (x : String) (s : Store)
      → contains x (members_at (delete k s) j)
        ≡ (if same k j then false else contains x (members_at s j))
  pub member-sadd :
      (k j : Key) (m x : String) (s : Store)
      → contains x (members_at (sadd k m s) j)
        ≡ (if same k j && (m == x) then true else contains x (members_at s j))
  pub member-srem :
      (k j : Key) (m x : String) (s : Store)
      → contains x (members_at (srem k m s) j)
        ≡ (if same k j && (m == x) then false else contains x (members_at s j))
  pub member-expire :
      (k j : Key) (x : String) (n : ℕ) (s : Store)
      → 0 < n
      → contains x (members_at (expire k n s) j) ≡ contains x (members_at s j)

abbrev pub value_of : Option (String × ℕ) → Option String
value_of none = none
value_of (some (v, left)) = some v

abbrev pub held : Option (String × ℕ) → Bool
held none = false
held (some entry) = true

module _ (redis : Redis) where
  -- `GET`
  abbrev pub get : Key → redis.Store → Option String
  get k s = value_of (redis.text_at s k)

  -- `EXISTS`
  abbrev pub exists : Key → redis.Store → Bool
  exists k s = held (redis.text_at s k)

  -- `SET ... NX EX`: the new store, and whether the key was set.
  abbrev pub set_nx : Key → String → ℕ → redis.Store → redis.Store × Bool
  set_nx k v ex s = if exists k s then (s, false) else (redis.set k v ex s, true)
