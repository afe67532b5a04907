-- ===== src/Server/Sharing.antt =====
-- The share of each address in the sessions (crates/rdows-server/src/lib.rs).
use rdows.Prelude.{
  ℕ, suc, ◌^◌, ◌≤◌, ◌<◌, ◌≡◌, ◌≢◌, refl, sym, ap, ◌∙◌, List, ◌∷◌, ◌++◌, Result, ok, err, Profile,
  ltb, ◌==◌, if◌then◌else◌, Bool-cases, inl, inr, arith,
}
use mathlib.Core.Path.{subst}
use rdows.Prelude.Dict.{lookup, insert}
use rdows.Bytes.Texts.{text}
use rdows.Server.Tracker.{Tracker, count_of, admit, release}
use rdows.Server.Sessions.{
  occurrences, occurrences-append, count_of-insert, Counts, admitted, refused, released, Reaches,
  start, next, admit-room, admit-full, lowered, release-lowered, lookup-count_of, count_of-lowered,
}

ok-ne-err : {E A : Type 0} {e : E} {a : A} → Result.ok a ≢ Result.err e
ok-ne-err h = cc h

module _ (prof : Profile) (limit : ℕ) (small : limit < 2 ^ 32) where
  occurrences-split :
      (ip a : ℕ) (before after : List ℕ)
      → occurrences a (before ++ (ip ∷ after)) ≡ (
          if ip == a
          then suc (occurrences a (before ++ after))
          else occurrences a (before ++ after))
  unfolding occurrences
  occurrences-split ip a before after =
      ground (arith, occurrences-append a before (ip ∷ after), occurrences-append a before after)

  insert-Counts :
      (ip count : ℕ) (t : Tracker) (held later : List ℕ)
      → Counts limit t held
      → count ≤ limit
      → ((a : ℕ) → occurrences a later ≡ (if ip == a then count else occurrences a held))
      → Counts limit (insert ip count t) later
  insert-Counts ip count t held later c h e = record {
    counted = λ a. ground (arith, count_of-insert ip a count t, e a, c.counted a);
    within = λ a. ground (arith, e a, c.within a);
  }

  release-Counts :
      (ip : ℕ) (before after : List ℕ) (t : Tracker)
      → Counts limit t (before ++ (ip ∷ after))
      → (t' : Tracker) × (release prof ip t ≡ (ok tt, t')) × Counts limit t' (before ++ after)
  release-Counts ip before after t c =
      let split = occurrences-split ip ip before after in
      let some_held : 1 ≤ count_of ip t = ground (arith, split, c.counted ip) in
      (
        lowered prof limit small ip (count_of ip t) t,
        release-lowered prof limit small ip (count_of ip t) t
            (lookup-count_of prof limit small ip t some_held) some_held
            (omega (arith, c.counted ip, c.within ip)),
        record {
          counted = λ a. ground (
            arith,
            count_of-lowered prof limit small ip a (count_of ip t) t,
            occurrences-split ip a before after,
            c.counted a,
          );
          within = λ a. ground (arith, occurrences-split ip a before after, c.within a);
        },
      )

  admitted-Counts :
      (ip : ℕ) (held : List ℕ) (t : Tracker)
      → Counts limit t held
      → occurrences ip held < limit
      → (t' : Tracker) × (admit prof limit ip t ≡ (ok tt, t')) × Counts limit t' (ip ∷ held)
  unfolding occurrences
  admitted-Counts ip held t c h = (
    _,
    admit-room prof limit small ip t (omega (arith, c.counted ip)),
    insert-Counts ip _ t held (ip ∷ held) c (omega (arith, c.counted ip))
        (λ a. ground (arith, c.counted ip)),
  )

  refused-Counts :
      (ip : ℕ) (held : List ℕ) (t : Tracker)
      → Counts limit t held
      → limit ≤ occurrences ip held
      → (e : List ℕ) × (t' : Tracker) × (admit prof limit ip t ≡ (err e, t')) × Counts limit t' held
  refused-Counts ip held t c h = (
    _,
    _,
    admit-full prof limit small ip t (omega (arith, c.counted ip)),
    insert-Counts ip _ t held held c (omega (arith, c.counted ip, c.within ip))
        (λ a. ground (arith, c.counted ip)),
  )

  held-Counts : {t : Tracker} {held : List ℕ} → Reaches prof limit t held → Counts limit t held
  unfolding occurrences count_of lookup
  held-Counts start = record { counted = λ a. refl; within = λ a. omega arith }
  held-Counts (next reached (admitted ip held t t' e)) =
      let c = held-Counts reached in
      elim (Bool-cases (ltb (occurrences ip held) limit)) [
        | inl room ↦
            let (u, e', c') = admitted-Counts ip held t c (ground (arith, room)) in
            subst (λ u. Counts limit u (ip ∷ held)) (ap (λ p. p.1) (sym e' ∙ e)) c'
        | inr full ↦
            let (x, u, e', c') = refused-Counts ip held t c (ground (arith, full)) in
            absurd (ok-ne-err (ap (λ p. p.0) (sym e ∙ e')))
      ]
  held-Counts (next reached (refused ip held t t' x e)) =
      let c = held-Counts reached in
      elim (Bool-cases (ltb (occurrences ip held) limit)) [
        | inl room ↦
            let (u, e', c') = admitted-Counts ip held t c (ground (arith, room)) in
            absurd (ok-ne-err (ap (λ p. p.0) (sym e' ∙ e)))
        | inr full ↦
            let (y, u, e', c') = refused-Counts ip held t c (ground (arith, full)) in
            subst (λ u. Counts limit u held) (ap (λ p. p.1) (sym e' ∙ e)) c'
      ]
  held-Counts (next reached (released ip before after t t' e)) =
      let (u, e', c') = release-Counts ip before after t (held-Counts reached) in
      subst (λ u. Counts limit u (before ++ after)) (ap (λ p. p.1) (sym e' ∙ e)) c'

-- Whatever connections come and whatever sessions end, in any order, the tracker holds for each
-- address the number of its sessions that were admitted and not yet released, and that is never above
-- the limit, which is below 2 ^ 32.
pub admit-release-Counts :
    (prof : Profile) (limit : ℕ)
    → limit < 2 ^ 32
    → (t : Tracker) (held : List ℕ) → Reaches prof limit t held
    → Counts limit t held
admit-release-Counts prof limit small t held reached = held-Counts prof limit small reached

-- With a limit below 2 ^ 32 and at any time, a connection is admitted where its address holds fewer
-- sessions than the limit, and refused where it holds as many; the release of a session that is held
-- succeeds. None of the three panics, in either kind of build.
pub admit-release :
    (prof : Profile) (limit : ℕ)
    → limit < 2 ^ 32
    → (t : Tracker) (held : List ℕ) → Reaches prof limit t held
    → ((ip : ℕ) → occurrences ip held < limit → (admit prof limit ip t).0 ≡ ok tt)
      × ((ip : ℕ)
          → limit ≤ occurrences ip held
          → (admit prof limit ip t).0 ≡ err (text "per-IP session limit exceeded"))
      × ((ip : ℕ) → 1 ≤ occurrences ip held → (release prof ip t).0 ≡ ok tt)
admit-release prof limit small t held reached =
    let c = held-Counts prof limit small reached in
    (
      λ ip h. ap (λ p. p.0) (admit-room prof limit small ip t (omega (arith, c.counted ip))),
      λ ip h. ap (λ p. p.0) (admit-full prof limit small ip t (omega (arith, c.counted ip))),
      λ ip h.
          ap (λ p. p.0)
            (release-lowered prof limit small ip (count_of ip t) t
              (lookup-count_of prof limit small ip t (omega (arith, c.counted ip)))
              (omega (arith, c.counted ip)) (omega (arith, c.counted ip, c.within ip))),
    )
