-- ===== src/Server/Store/Atomic.antt =====
-- `atomic_op` on every path, in terms of the view.
use rdows.Prelude.{
  ℕ, ◌+◌, ◌%◌, ◌^◌, ◌≤◌, ◌≡◌, ◌≢◌, refl, List, ◌++◌, length, true, some, Result, ok, err, arith,
  ◌==◌, if◌then◌else◌, inl, inr, Bool-cases,
}
use rdows.Prelude.Dict.{lookup}
use rdows.Bytes.{to_be, from_be, length-to_be}
use rdows.Core.Error.{ErrorCode, err_bounds, err_alignment, err_unknown_opcode}
use rdows.Core.Memory.{contains, remote_atomic}
use rdows.Server.Store.Defs.{
  MemoryRegionEntry, MemoryStore, in_bounds, put_content, new_value, apply_atomic, atomic_op,
}
use rdows.Server.Store.Invariant.{IsValid, put_content-IsValid}
use rdows.Server.Store.View.{view, seen, content_short, view-put_content}
use rdows.Bytes.Ranges.{splice, slice, split, slice-append, splice-append, length-overwritten}
use rdows.Server.Store.Access.{Refusal, outside, Target, refuses, grants, find_granted-Looked}

-- The number that an atomic operation stores: compare-and-swap stores its second operand only where
-- the first is what it found, fetch-and-add adds its first operand on 64 bits.
pub data Stores (atomic_type operand1 operand2 original : ℕ) : ℕ → Type 0 where
  swaps :
      atomic_type ≡ 1 → original ≡ operand1 → Stores atomic_type operand1 operand2 original operand2
  keeps :
      atomic_type ≡ 1 → original ≢ operand1 → Stores atomic_type operand1 operand2 original original
  adds :
      atomic_type ≡ 2
      → Stores atomic_type operand1 operand2 original ((original + operand1) % 2 ^ 64)

module _ (atomic_type operand1 operand2 original : ℕ) where
  data Computed (out : Result ErrorCode ℕ) : Type 0 where
    no_value : atomic_type ≢ 1 → atomic_type ≢ 2 → out ≡ err err_unknown_opcode → Computed out
    computes :
        (value : ℕ)
        → Stores atomic_type operand1 operand2 original value
        → out ≡ ok value
        → Computed out

  new_value-Computed : Computed (new_value atomic_type operand1 operand2 original)
  unfolding new_value
  new_value-Computed = elim (Bool-cases (atomic_type == 1)) [
    | inl cas ↦ elim (Bool-cases (original == operand1)) [
      | inl found ↦ computes operand2 (swaps (ground arith) (ground arith)) (ground arith)
      | inr other ↦ computes original (keeps (ground arith) (ground arith)) (ground arith)
    ]
    | inr not_cas ↦ elim (Bool-cases (atomic_type == 2)) [
      | inl faa ↦ computes ((original + operand1) % 2 ^ 64) (adds (ground arith)) (ground arith)
      | inr other ↦ no_value (ground arith) (ground arith) (ground arith)
    ]
  ]

module _ (rkey remote_va atomic_type operand1 operand2 : ℕ) (s : MemoryStore) where
  -- How an atomic operation may end, with the store as it is then.
  pub data Exchanged (out : Result ErrorCode ℕ × MemoryStore) : Type 0 where
    refused :
        (e : ErrorCode)
        → Refusal rkey remote_atomic remote_va 8 s e
        → out ≡ (err e, s)
        → Exchanged out
    misaligned :
        (flags : ℕ) (content : List ℕ)
        → view s rkey ≡ some (flags, content)
        → contains flags remote_atomic ≡ true
        → remote_va % 8 ≢ 0
        → out ≡ (err err_alignment, s)
        → Exchanged out
    unsupported :
        Target rkey remote_atomic remote_va 8 s
        → atomic_type ≢ 1
        → atomic_type ≢ 2
        → out ≡ (err err_unknown_opcode, s)
        → Exchanged out
    done :
        (t : Target rkey remote_atomic remote_va 8 s) (value : ℕ)
        → remote_va % 8 ≡ 0
        → Stores atomic_type operand1 operand2 (from_be t.range.mid) value
        → out.0 ≡ ok (from_be t.range.mid)
        → ((r : ℕ)
            → view out.1 r ≡ (
                if rkey == r
                then some (t.flags, t.range.before ++ (to_be 8 value ++ t.range.after))
                else view s r))
        → IsValid out.1
        → out.1.used_rkeys ≡ s.used_rkeys
        → Exchanged out

  -- The part after the tests.
  apply_atomic-Exchanged :
      IsValid s
      → (lkey : ℕ) (entry : MemoryRegionEntry) → lookup rkey s.rkey_to_lkey ≡ some lkey
      → lookup lkey s.regions ≡ some entry
      → view s rkey ≡ some (seen entry)
      → contains entry.access_flags remote_atomic ≡ true
      → remote_va % 8 ≡ 0
      → remote_va + 8 ≤ length entry.content
      → Exchanged (apply_atomic remote_va atomic_type operand1 operand2 lkey entry s)
  unfolding apply_atomic
  apply_atomic-Exchanged v lkey entry leads found sees held even inside =
      let cut = split remote_va 8 entry.content inside in
      let t : Target rkey remote_atomic remote_va 8 s = record {
        flags = entry.access_flags;
        content = entry.content;
        sees = sees;
        allowed = held;
        range = cut;
      } in
      let at_va : slice remote_va 8 entry.content ≡ cut.mid = rw (
        cut.whole,
        slice-append remote_va cut.before cut.mid cut.after 8 cut.length_before cut.length_mid,
      ) in
      elim (new_value-Computed atomic_type operand1 operand2 (from_be cut.mid)) [
        | no_value not_cas not_faa e ↦ unsupported t not_cas not_faa (rw (apply_atomic, at_va, e))
        | computes value stores e ↦
            let new : List ℕ = cut.before ++ (to_be 8 value ++ cut.after) in
            let spliced : splice remote_va (to_be 8 value) entry.content ≡ new = rw (
              cut.whole,
              splice-append remote_va cut.before cut.mid cut.after (to_be 8 value) cut.length_before
                  (omega (arith, cut.length_mid, length-to_be 8 value)),
            ) in
            let result : apply_atomic remote_va atomic_type operand1 operand2 lkey entry s
                ≡ (ok (from_be cut.mid), put_content lkey entry new s) =
              rw (apply_atomic, at_va, e, spliced, at_va) in
            rw result (
              done t value even stores refl
                (λ r. view-put_content v rkey lkey entry new r leads found)
                (put_content-IsValid entry lkey new v found
                  (length-overwritten cut (to_be 8 value) (length-to_be 8 value)))
                refl)
      ]

  -- On a valid store an atomic operation gives back the number that stood at the address and stores the
  -- one that compare-and-swap or fetch-and-add makes of it, in eight bytes of that region alone; or it
  -- ends with the error whose reason holds, and the store is what it was. It never panics, and the
  -- store stays valid.
  pub atomic_op-Exchanged :
      IsValid s → Exchanged (atomic_op rkey remote_va atomic_type operand1 operand2 s)
  unfolding atomic_op
  atomic_op-Exchanged v = elim (find_granted-Looked rkey remote_atomic remote_va 8 s) [
    | refuses e why out ↦ refused e why (rw (out, atomic_op))
    | grants lkey entry leads found sees held out ↦ elim (Bool-cases (remote_va % 8 == 0)) [
      | inr odd ↦
          misaligned entry.access_flags entry.content sees held (ground arith)
            (rw (out, atomic_op, odd))
      | inl even ↦ elim (Bool-cases (in_bounds remote_va 8 entry.content)) [
        | inr beyond ↦
            refused err_bounds
              (outside entry.access_flags entry.content sees held
                (ground (arith, content_short v lkey entry found)))
              (rw (out, atomic_op, even, beyond))
        | inl inside ↦
            let run =
              apply_atomic-Exchanged v lkey entry leads found sees held (ground arith)
                (ground arith) in
            let result : atomic_op rkey remote_va atomic_type operand1 operand2 s
                ≡ apply_atomic remote_va atomic_type operand1 operand2 lkey entry s =
              rw (out, atomic_op, even, inside) in
            rw result run
      ]
    ]
  ]
