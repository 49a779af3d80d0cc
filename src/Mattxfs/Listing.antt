-- ===== src/Mattxfs/Listing.antt =====
-- Listing a directory of mattxfs/mattxfs.c: mattxfs_root_iterate and mattxfs_remote_iterate, and what
-- they hand to dir_emit.
pub mod Paged
pub mod Nodes
use mattx.Base.{
  ℕ, zero, suc, ◌+◌, ◌-◌, List, [], ◌∷◌, ◌++◌, Bool, true, false, Option, none, some, leb,
  if◌then◌else◌, take, ℤ, pos, negsuc,
}
use mattx.Dsm.Rpc.{Dirent}
use mattx.Vfs.Home.{is_zero}
use mattx.Vfs.Ops.{Listing}
use mattx.Vfs.Client.{enomem}

abbrev pub counted : Listing → List Dirent
counted l = elim l.count [ none ↦ [] | some n ↦ elim l.entries [ none ↦ [] | some es ↦ take n es ] ]

-- `emit` is dir_emit into the buffer of a caller: whether the entry was taken, and the buffer.
module _ {S : Type 0} where
  -- The loop over a block: the position of an entry is stored before it is emitted. The first field
  -- says whether the loop came to its end.
  unfoldable pub emit_block :
      (emit : Dirent → S → Bool × S) → List Dirent → (at : ℕ) → S → Bool × ℕ × S
  emit_block emit [] at s = (true, at, s)
  emit_block emit (x ∷ xs) at s =
      let rest = emit_block emit xs x.offset (emit x s).1 in
      if (emit x s).0 then rest else (false, x.offset, (emit x s).1)

  -- mattxfs_remote_iterate after the call of mattx_rpc_vfs_readdir: what it returns, ctx->pos and the
  -- buffer.
  unfoldable pub remote_iterate :
      (emit : Dirent → S → Bool × S) → Listing → (at : ℕ) → S → ℤ × ℕ × S
  remote_iterate emit l at s =
      if is_zero l.err
      then (let (whole, at', s') = emit_block emit (counted l) at s in
          (pos 0, if whole then l.offset else at', s'))
      else (l.err, at, s)

  -- The loop over the active nodes from index `i` on, and ctx->pos; a node is emitted where the
  -- position has not passed it.
  unfoldable pub emit_nodes : (emit : ℕ → S → Bool × S) → List ℕ → (i at : ℕ) → S → ℕ × S
  emit_nodes emit [] i at s = (at, s)
  emit_nodes emit (n ∷ ns) i at s =
      let skip = emit_nodes emit ns (suc i) at s in
      let next = emit_nodes emit ns (suc i) (suc at) (emit n s).1 in
      if leb at (i + 2) then (if (emit n s).0 then next else (at, (emit n s).1)) else skip

  -- mattxfs_root_iterate, once the dots are emitted.
  unfoldable pub root_iterate : (emit : ℕ → S → Bool × S) → List ℕ → (at : ℕ) → S → ℕ × S
  root_iterate emit nodes at s = emit_nodes emit nodes 0 at s

-- A buffer that is offered entries in turn: how many it takes before it refuses one, and what it is then.
unfoldable pub offer : {A S : Type 0} → (emit : A → S → Bool × S) → List A → S → ℕ × S
offer emit [] s = (0, s)
offer emit (x ∷ xs) s =
    let rest = offer emit xs (emit x s).1 in
    if (emit x s).0 then (suc rest.0, rest.1) else (0, (emit x s).1)
