-- ===== src/Schedule/Layout/Wires.antt =====
-- src/schedule.cpp: input_source and param_source name, for each port, the connection that feeds it.
use xrune.Base.{
  ℕ, zero, suc, ◌<◌, ◌≡◌, refl, ◌∙◌, false, List, [], ◌∷◌, get_or, set, modify, length, arith,
  get_elem?, some, Bool-cases, inl, inr, ◌==◌, ◌&&◌, if◌then◌else◌, get_or-modify_self,
  get_or-modify_ne, length-modify, get_or_beyond, any_of_none, subst, any, Bool,
}
use mathlib.Core.Option.{some-injective}
use native.Mathlib.Decide.{dec_lt}
use xrune.Schedule.Layout.{SrcRef, silent, Wire, wire, wire_all}

-- What the table says of a port.
abbrev pub source_at : List (List SrcRef) → ℕ → ℕ → SrcRef
source_at table d p = get_or (get_or table d []) p silent

abbrev pub HasPort : List (List SrcRef) → ℕ → ℕ → Type 0
HasPort table d p = (d < length table) × (p < length (get_or table d []))

-- A wire's target is its own.
abbrev pub OneWire : List Wire → Type 0
OneWire ws =
    (i j : ℕ) (v w : Wire)
    → get_elem? ws i ≡ some v
    → get_elem? ws j ≡ some w
    → v.dst ≡ w.dst
    → v.port ≡ w.port
    → i ≡ j

row_after :
    (d p d' : ℕ) (src : SrcRef) (table : List (List SrcRef))
    → get_or (wire d p src table) d' []
      ≡ (if d == d' then set (get_or table d []) p src else get_or table d' [])
unfolding wire
row_after d p d' src table = elim (dec_lt d (length table)) [
  | yes h ↦ ground (
    arith,
    get_or-modify_self table d (λ row. set row p src) [] h,
    get_or-modify_ne table d d' (λ row. set row p src) [],
  )
  | no h ↦ ground (
    arith,
    length-modify table d (λ row. set row p src),
    get_or_beyond table d [],
    get_or_beyond (modify table d (λ row. set row p src)) d [],
    get_or-modify_ne table d d' (λ row. set row p src) [],
  )
]

wire-HasPort :
    (w : Wire) (d p : ℕ) (table : List (List SrcRef))
    → HasPort table d p
    → HasPort (wire w.dst w.port w.source table) d p
wire-HasPort w d p table k = (
  unfold wire in omega (arith, length-modify table w.dst (λ row. set row w.port w.source), k.0),
  ground (
    arith,
    k.1,
    row_after w.dst w.port d w.source table,
    length-modify (get_or table w.dst []) w.port (λ _. w.source),
  ),
)

source_wire_self :
    (w : Wire) (table : List (List SrcRef))
    → HasPort table w.dst w.port
    → source_at (wire w.dst w.port w.source table) w.dst w.port ≡ w.source
source_wire_self w table h = ground (
  arith,
  row_after w.dst w.port w.dst w.source table,
  get_or-modify_self (get_or table w.dst []) w.port (λ _. w.source) silent h.1,
)

source_wire_other :
    (w : Wire) (d p : ℕ) (table : List (List SrcRef))
    → (w.dst == d && w.port == p) ≡ false
    → source_at (wire w.dst w.port w.source table) d p ≡ source_at table d p
source_wire_other w d p table other = ground (
  arith,
  row_after w.dst w.port d w.source table,
  get_or-modify_ne (get_or table w.dst []) w.port p (λ _. w.source) silent,
)

-- A port that no wire leads to keeps what it had.
abbrev pub leads_to : ℕ → ℕ → Wire → Bool
leads_to d p w = w.dst == d && w.port == p

pub wire_all_unfed :
    (ws : List Wire) (d p : ℕ) (table : List (List SrcRef))
    → any (leads_to d p) ws ≡ false
    → source_at (wire_all ws table) d p ≡ source_at table d p
unfolding wire_all
wire_all_unfed [] d p table h = refl
wire_all_unfed (w ∷ ws) d p table h =
    wire_all_unfed ws d p (wire w.dst w.port w.source table) (ground arith)
    ∙ source_wire_other w d p table (ground arith)

unfed_after :
    (w : Wire) (ws : List Wire) → OneWire (w ∷ ws) → any (leads_to w.dst w.port) ws ≡ false
unfed_after w ws one = any_of_none (leads_to w.dst w.port) ws λ i v e.
    elim (Bool-cases (leads_to w.dst w.port v)) [
      | inl same ↦ absurd (omega (arith, one 0 (suc i) w v refl e (ground arith) (ground arith)))
      | inr other ↦ other
    ]

-- The port that a wire leads to ends up with the wire's source.
pub wire_all_fed :
    (ws : List Wire) (i : ℕ) (w : Wire) (table : List (List SrcRef))
    → OneWire ws
    → get_elem? ws i ≡ some w
    → HasPort table w.dst w.port
    → source_at (wire_all ws table) w.dst w.port ≡ w.source
unfolding wire_all
wire_all_fed [] i w table one e h = cc
wire_all_fed (v ∷ ws) zero w table one e h =
    let same : v ≡ w = some-injective v w e in
    subst (λ x. source_at (wire_all ws (wire v.dst v.port v.source table)) x.dst x.port ≡ x.source)
      same
      (wire_all_unfed ws v.dst v.port _ (unfed_after v ws one)
        ∙ source_wire_self v table (rw same h))
wire_all_fed (v ∷ ws) (suc i) w table one e h =
    wire_all_fed ws i w (wire v.dst v.port v.source table)
      (λ a b x y ea eb p q. omega (arith, one (suc a) (suc b) x y ea eb p q)) e
      (wire-HasPort v w.dst w.port table h)
