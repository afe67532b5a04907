-- ===== src/Kv/Remote.antt =====
-- A range of a region, as a view of the store shows it.
use rdows.Prelude.{
  ℕ, ◌==◌, ◌+◌, ◌≤◌, ◌≡◌, refl, ap, sym, ◌∙◌, List, ◌++◌, true, some, ok, length, if◌then◌else◌,
  arith,
}
use rdows.Bytes.Ranges.{
  slice, splice, Split, split, slice-append, splice-append, length-overwritten,
}
use rdows.Core.Memory.{contains, remote_read, remote_write}
use rdows.Server.Store.{MemoryStore, read_region, write_region}
use rdows.Server.Store.Invariant.{IsValid}
use rdows.Server.Store.View.{view}
use rdows.Server.Store.Access
use rdows.Server.Store.Access.{
  Target, Target-not_refused, read_region-Readout, write_region-Written,
}

pub slice-mid :
    {start len : ℕ} {content : List ℕ} (cut : Split start len content)
    → slice start len content ≡ cut.mid
slice-mid {start} {len} {content} cut =
    ap (slice start len) cut.whole
    ∙ slice-append start cut.before cut.mid cut.after len cut.length_before cut.length_mid

pub splice-overwritten :
    {start : ℕ} {content : List ℕ} (bytes : List ℕ) (cut : Split start (length bytes) content)
    → splice start bytes content ≡ cut.before ++ (bytes ++ cut.after)
splice-overwritten {start} {content} bytes cut =
    ap (splice start bytes) cut.whole
    ∙ splice-append start cut.before cut.mid cut.after bytes cut.length_before cut.length_mid

pub length-splice :
    (start : ℕ) (bytes content : List ℕ)
    → start + length bytes ≤ length content
    → length (splice start bytes content) ≡ length content
length-splice start bytes content h =
    let cut = split start (length bytes) content h in
    ap length (splice-overwritten bytes cut) ∙ length-overwritten cut bytes refl

some-injective : {p q : ℕ × List ℕ} → some p ≡ some q → p ≡ q
some-injective e = cc e

module _ (rkey flags : ℕ) (content : List ℕ) (s : MemoryStore) (v : IsValid s)
    (sees : view s rkey ≡ some (flags, content)) where
  pub target :
      (right offset len : ℕ)
      → contains flags right ≡ true
      → offset + len ≤ length content
      → Target rkey right offset len s
  target right offset len allowed h = record {
    flags = flags;
    content = content;
    sees = sees;
    allowed = allowed;
    range = split offset len content h;
  }

  pub read_region-slice :
      (offset len : ℕ)
      → contains flags remote_read ≡ true
      → offset + len ≤ length content
      → read_region rkey offset len s ≡ ok (slice offset len content)
  read_region-slice offset len allowed h = elim (read_region-Readout rkey offset len s v) [
    | Access.Readout.refused e why out ↦
        absurd (Target-not_refused _ _ _ _ _ (target remote_read offset len allowed h) why)
    | Access.Readout.done t out ↦
        out
        ∙ ap ok (
            sym (slice-mid t.range)
            ∙ ap (slice offset len) (ap (λ p. p.1) (some-injective (sym t.sees ∙ sees))))
  ]

  pub write_region-splice :
      (offset : ℕ) (bytes : List ℕ)
      → contains flags remote_write ≡ true
      → offset + length bytes ≤ length content
      → IsValid (write_region rkey offset bytes s).1
        × (view (write_region rkey offset bytes s).1 rkey
            ≡ some (flags, splice offset bytes content))
  write_region-splice offset bytes allowed h = elim (write_region-Written rkey offset bytes s v) [
    | Access.Written.refused e why out ↦
        absurd
          (Target-not_refused _ _ _ _ _ (target remote_write offset (length bytes) allowed h) why)
    | Access.Written.done t out shows valid kept ↦
        let same : (rkey == rkey) ≡ true = ground arith in
        (
          valid,
          shows rkey
              ∙ ap
                  (λ b.
                    if b
                    then some (t.flags, t.range.before ++ (bytes ++ t.range.after))
                    else view s rkey)
                  same
              ∙ ap (λ f. some (f, t.range.before ++ (bytes ++ t.range.after)))
                  (ap (λ p. p.0) (some-injective (sym t.sees ∙ sees)))
              ∙ ap (λ xs. some (flags, xs))
                  (sym (splice-overwritten bytes t.range)
                    ∙ ap (splice offset bytes)
                        (ap (λ p. p.1) (some-injective (sym t.sees ∙ sees)))),
        )
  ]
