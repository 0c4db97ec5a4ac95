-- ===== src/Faults.antt =====
-- app/faults.py: the dependencies that are simulated as down. The module's set is the argument.
use feathr_events.Prelude.{
  List, [], ◌∷◌, ◌++◌, Bool, true, false, ◌&&◌, if◌then◌else◌, ◌≡◌, ◌↔◌, Eq, arith, contains,
}

pub data Dependency : Type 0 where
  mongodb elasticsearch redis : Dependency

abbrev pub dependency_beq : Dependency → Dependency → Bool
dependency_beq mongodb mongodb = true
dependency_beq elasticsearch elasticsearch = true
dependency_beq redis redis = true
dependency_beq _ _ = false

pub dependency_beq_iff : (a b : Dependency) → (dependency_beq a b ≡ true) ↔ (a ≡ b)
dependency_beq_iff mongodb b = ground arith
dependency_beq_iff elasticsearch b = ground arith
dependency_beq_iff redis b = ground arith

instance abbrev pub dependency_eq : Eq Dependency
dependency_eq = record { beq = dependency_beq; beq_iff = dependency_beq_iff }

abbrev pub Faulted : Type 0
Faulted = List Dependency

abbrev pub remove : Dependency → Faulted → Faulted
remove d [] = []
remove d (x ∷ xs) = if dependency_beq d x then remove d xs else x ∷ remove d xs

unfoldable pub enable : Dependency → Faulted → Faulted
enable d s = if contains d s then s else d ∷ s

unfoldable pub disable : Dependency → Faulted → Faulted
disable d s = remove d s

unfoldable pub clear : Faulted → Faulted
clear s = []

-- `sorted(_faulted)`, in the order of the names
unfoldable pub active : Faulted → Faulted
active s =
    (if contains elasticsearch s then elasticsearch ∷ [] else [])
    ++ ((if contains mongodb s then mongodb ∷ [] else [])
        ++ (if contains redis s then redis ∷ [] else []))

unfoldable pub is_faulted : (demo_mode : Bool) → Dependency → Faulted → Bool
is_faulted demo_mode d s = demo_mode && contains d s

-- `guard` raises `InjectedFault` if this is `true`.
unfoldable pub guard : (demo_mode : Bool) → Dependency → Faulted → Bool
unfolding is_faulted
guard demo_mode d s = is_faulted demo_mode d s
