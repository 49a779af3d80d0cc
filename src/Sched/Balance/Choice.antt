-- ===== src/Sched/Balance/Choice.antt =====
-- The node that mattx_evaluate_and_balance of mattx_sched.c chooses.
use mattx.Base.{
  ℕ, zero, suc, ◌+◌, ◌<◌, ◌≤◌, ◌≡◌, refl, ◌⊎◌, inl, inr, List, [], ◌∷◌, Bool, true, false, ◌&&◌,
  Option, none, some, arith, ltb, if◌then◌else◌, get_elem?, Bool-cases,
}
use mattx.Sched.Balance.{Node, is_open, remote_norm, best_node_from, u32_max}

-- No open node of the list has a load below this.
abbrev pub AtLeast : ℕ → List Node → Type 0
AtLeast m ns = mattx.Base.Lists.All (λ n. is_open n ≡ true → m ≤ remote_norm n.load) ns

-- The node at this index is open, its load is `m`, and no open node has a lower one.
pub record IsLowest (ns : List Node) (i m : ℕ) : Type 0 where
  pub node : Node
  pub there : get_elem? ns i ≡ some node
  pub open_node : is_open node ≡ true
  pub load : m ≡ remote_norm node.load
  pub lowest : AtLeast m ns

AtLeast-mono : (m n : ℕ) (ns : List Node) → n ≤ m → AtLeast m ns → AtLeast n ns
AtLeast-mono m n [] h a = tt
AtLeast-mono m n (x ∷ ns) h a = (λ o. omega (arith, a.0 o), AtLeast-mono m n ns h a.1)

-- Entered at index `i`, the loop keeps what it has, or finds a lower load.
best_node_from-cases :
    (ns : List Node) (i : ℕ) (best : Option ℕ) (lowest : ℕ)
    → ((best_node_from i ns best lowest ≡ (best, lowest)) × AtLeast lowest ns)
      ⊎ ((j m : ℕ) × (best_node_from i ns best lowest ≡ (some (i + j), m))
          × (m < lowest)
          × IsLowest ns j m)
unfolding best_node_from
best_node_from-cases [] i best lowest = inl (refl, tt)
best_node_from-cases (n ∷ ns) i best lowest =
    elim (Bool-cases (is_open n && ltb (remote_norm n.load) lowest)) [
      | inr skip ↦ elim (best_node_from-cases ns (suc i) best lowest) [
        | inl (e, a) ↦ inl (rw skip e, (λ o. ground arith, a))
        | inr (j, m, e, h, low) ↦
            let q : i + suc j ≡ suc i + j = omega arith in
            inr (
              suc j,
              m,
              rw (skip, q) e,
              h,
              record {
                node = low.node;
                there = low.there;
                open_node = low.open_node;
                load = low.load;
                lowest = (λ o. ground arith, low.lowest);
              },
            )
      ]
      | inl better ↦ elim (best_node_from-cases ns (suc i) (some i) (remote_norm n.load)) [
        | inl (e, a) ↦
            let q : i + 0 ≡ i = omega arith in
            inr (
              0,
              remote_norm n.load,
              rw (better, q) e,
              ground arith,
              record {
                node = n;
                there = refl;
                open_node = ground arith;
                load = refl;
                lowest = (λ o. omega arith, a);
              },
            )
        | inr (j, m, e, h, low) ↦
            let q : i + suc j ≡ suc i + j = omega arith in
            inr (
              suc j,
              m,
              rw (better, q) e,
              ground arith,
              record {
                node = low.node;
                there = low.there;
                open_node = low.open_node;
                load = low.load;
                lowest = (λ o. omega arith, low.lowest);
              },
            )
      ]
    ]

-- The loop over all nodes finds an open node of lowest load, or there is no open node with a load below
-- the largest u32.
pub best_node_from-IsLowest :
    (ns : List Node)
    → ((best_node_from 0 ns none u32_max ≡ (none, u32_max)) × AtLeast u32_max ns)
      ⊎ ((i m : ℕ) × (best_node_from 0 ns none u32_max ≡ (some i, m)) × IsLowest ns i m)
best_node_from-IsLowest ns = elim (best_node_from-cases ns 0 none u32_max) [
  | inl r ↦ inl r
  | inr (j, m, e, h, low) ↦ let q : 0 + j ≡ j = omega arith in inr (j, m, rw q at e, low)
]
