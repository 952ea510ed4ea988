-- ===== src/Closures.antt =====
-- Variables that closures share: `captureUpvalue` and `closeUpvalues` of lib/wren/src/vm/wren_vm.c,
-- and the instructions that read and write variables through upvalues.
pub mod Lists
pub mod Capture
pub mod Close
pub mod Store
mod Tests
use wrenegade.Base.{
  ℕ, zero, suc, ◌+◌, ◌<◌, Bool, Option, none, some, List, [], ◌∷◌, ◌++◌, length, get_elem?, set,
  take, ltb, leb, ◌==◌, if◌then◌else◌,
}
use mathlib.Core.Option

-- `value` of an upvalue: a slot of the stack, or `closed` of the upvalue itself.
pub data Upvalue (A : Type 0) : Type 0 where
  open_at : ℕ → Upvalue A
  closed : A → Upvalue A

-- The stack of a fiber, its upvalues by their addresses, and the list `openUpvalues` of addresses.
pub record Variables (A : Type 0) : Type 0 where
  pub stack : List A
  pub upvalues : List (Upvalue A)
  pub open_upvalues : List ℕ

-- The slot of an upvalue of the open list; none is an upvalue that is not there or not open.
unfoldable pub open_slot : {A : Type 0} → List (Upvalue A) → ℕ → Option ℕ
open_slot upvalues u =
    Option.bind (get_elem? upvalues u) λ v. elim v [ open_at slot ↦ some slot | closed a ↦ none ]

-- The walk of `captureUpvalue` gives the upvalue that is there, or the list with the new one.
pub data Walk : Type 0 where
  existing : ℕ → Walk
  linked : List ℕ → Walk

abbrev pub link_before : ℕ → Walk → Walk
link_before u (existing found) = existing found
link_before u (linked us) = linked (u ∷ us)

unfoldable pub walk : {A : Type 0} → List (Upvalue A) → ℕ → ℕ → List ℕ → Option Walk
walk upvalues local created [] = some (linked (created ∷ []))
walk upvalues local created (u ∷ us) = Option.bind (open_slot upvalues u) λ slot.
    if ltb local slot
    then Option.map (link_before u) (walk upvalues local created us)
    else if slot == local
    then some (existing u)
    else some (linked (created ∷ u ∷ us))

-- `captureUpvalue`, with the address of the upvalue.
unfoldable pub capture_upvalue : {A : Type 0} → Variables A → ℕ → Option (Variables A × ℕ)
capture_upvalue m local =
    let created = length m.upvalues in
    Option.bind (walk m.upvalues local created m.open_upvalues) λ w. some (elim w [
      | existing u ↦ (m, u)
      | linked us ↦
          (record m { upvalues = m.upvalues ++ open_at local ∷ []; open_upvalues = us }, created)
    ])

-- The loop of `closeUpvalues`.
unfoldable pub close_from :
    {A : Type 0} → List A → ℕ → List (Upvalue A) → List ℕ → Option (List (Upvalue A) × List ℕ)
close_from stack last upvalues [] = some (upvalues, [])
close_from stack last upvalues (u ∷ us) = Option.bind (open_slot upvalues u) λ slot.
    let closing =
      Option.bind (get_elem? stack slot)
        λ v. close_from stack last (set upvalues u (closed v)) us in
    if leb last slot then closing else some (upvalues, u ∷ us)

unfoldable pub close_upvalues : {A : Type 0} → Variables A → ℕ → Option (Variables A)
close_upvalues m last =
    Option.bind (close_from m.stack last m.upvalues m.open_upvalues)
      λ r. some (record m { upvalues = r.0; open_upvalues = r.1 })

-- `CODE_CLOSE_UPVALUE`: the slots from `last`, there the top one, on are closed and discarded.
-- `CODE_RETURN` closes the slots of its frame alike, but keeps one of them for the result.
unfoldable pub discard_from : {A : Type 0} → Variables A → ℕ → Option (Variables A)
discard_from m last =
    Option.bind (close_upvalues m last) λ m'. some (record m' { stack = take last m'.stack })

-- `*upvalue->value`
unfoldable pub load_upvalue : {A : Type 0} → Variables A → ℕ → Option A
load_upvalue m u =
    Option.bind (get_elem? m.upvalues u)
      λ v. elim v [ open_at slot ↦ get_elem? m.stack slot | closed a ↦ some a ]

unfoldable pub store_upvalue : {A : Type 0} → Variables A → ℕ → A → Option (Variables A)
store_upvalue m u a = Option.bind (get_elem? m.upvalues u) λ v. some (elim v [
  | open_at slot ↦ record m { stack = set m.stack slot a }
  | closed b ↦ record m { upvalues = set m.upvalues u (closed a) }
])
