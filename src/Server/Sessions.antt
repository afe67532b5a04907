-- ===== src/Server/Sessions.antt =====
-- The sessions that are held, and those that the tracker counts (crates/rdows-server/src/lib.rs).
use rdows.Prelude.{
  ℕ, suc, ◌+◌, ◌-◌, ◌^◌, ◌≤◌, ◌<◌, ◌≡◌, refl, List, [], ◌∷◌, ◌++◌, Bool, true, false, Option, none,
  some, ok, err, Profile, add_uint-ok, sub_uint-ok, leb, ◌==◌, if◌then◌else◌, Bool-cases, inl, inr,
  arith,
}
use rdows.Prelude.Dict.{lookup, insert, remove, lookup-insert, lookup-remove}
use rdows.Bytes.Texts.{text}
use rdows.Server.Tracker.{Tracker, count_of, admit, release}

-- How often an address is in a list.
unfoldable pub occurrences : ℕ → List ℕ → ℕ
occurrences ip [] = 0
occurrences ip (a ∷ held) = if a == ip then suc (occurrences ip held) else occurrences ip held

pub occurrences-append :
    (ip : ℕ) (xs ys : List ℕ) → occurrences ip (xs ++ ys) ≡ occurrences ip xs + occurrences ip ys
unfolding occurrences
occurrences-append ip [] ys = omega arith
occurrences-append ip (a ∷ xs) ys = ground (arith, occurrences-append ip xs ys)

pub count_of-insert :
    (ip a count : ℕ) (t : Tracker)
    → count_of a (insert ip count t) ≡ (if ip == a then count else count_of a t)
unfolding count_of
count_of-insert ip a count t = rw (count_of, lookup-insert ip a count t) (go (ip == a))
  where
    go :
        (b : Bool)
        → (elim (if b then some count else lookup a t) [ none ↦ 0 | some count ↦ count ])
          ≡ (if b then count else count_of a t)
    go true = refl
    go false = refl

count_of-remove :
    (ip a : ℕ) (t : Tracker) → count_of a (remove ip t) ≡ (if ip == a then 0 else count_of a t)
unfolding count_of
count_of-remove ip a t = rw (count_of, lookup-remove ip a t) (go (ip == a))
  where
    go :
        (b : Bool)
        → (elim (if b then none else lookup a t) [ none ↦ 0 | some count ↦ count ])
          ≡ (if b then 0 else count_of a t)
    go true = refl
    go false = refl

-- The tracker counts the sessions of the list, and none has more than its share.
pub record Counts (max_sessions_per_ip : ℕ) (tracker : Tracker) (held : List ℕ) : Type 0 where
  pub counted : (ip : ℕ) → count_of ip tracker ≡ occurrences ip held
  pub within : (ip : ℕ) → occurrences ip held ≤ max_sessions_per_ip

module _ (prof : Profile) (limit : ℕ) where
  -- What happens at the tracker: a connection is admitted or refused, or an held one is released.
  pub data Step : Tracker → List ℕ → Tracker → List ℕ → Type 0 where
    admitted :
        (ip : ℕ) (held : List ℕ) (t t' : Tracker)
        → admit prof limit ip t ≡ (ok tt, t')
        → Step t held t' (ip ∷ held)
    refused :
        (ip : ℕ) (held : List ℕ) (t t' : Tracker) (e : List ℕ)
        → admit prof limit ip t ≡ (err e, t')
        → Step t held t' held
    released :
        (ip : ℕ) (before after : List ℕ) (t t' : Tracker)
        → release prof ip t ≡ (ok tt, t')
        → Step t (before ++ (ip ∷ after)) t' (before ++ after)

  -- From no session on.
  pub data Reaches : Tracker → List ℕ → Type 0 where
    start : Reaches [] []
    next :
        {t t' : Tracker} {held later : List ℕ}
        → Reaches t held
        → Step t held t' later
        → Reaches t' later

  module _ (small : limit < 2 ^ 32) where
    pub admit-room :
        (ip : ℕ) (t : Tracker)
        → count_of ip t < limit
        → admit prof limit ip t ≡ (ok tt, insert ip (count_of ip t + 1) t)
    unfolding admit
    admit-room ip t h =
        let free : leb limit (count_of ip t) ≡ false = ground arith in
        rw (admit, free, add_uint-ok {E = List ℕ} prof 32 (count_of ip t) 1 (omega arith)) refl

    pub admit-full :
        (ip : ℕ) (t : Tracker)
        → limit ≤ count_of ip t
        → admit prof limit ip t
          ≡ (err (text "per-IP session limit exceeded"), insert ip (count_of ip t) t)
    unfolding admit
    admit-full ip t h =
        let full : leb limit (count_of ip t) ≡ true = ground arith in rw (admit, full) refl

    -- The table after a release.
    pub lowered : ℕ → ℕ → Tracker → Tracker
    lowered ip count t = if count - 1 == 0 then remove ip t else insert ip (count - 1) t

    pub release-lowered :
        (ip count : ℕ) (t : Tracker)
        → lookup ip t ≡ some count
        → 1 ≤ count
        → count < 2 ^ 32
        → release prof ip t ≡ (ok tt, lowered ip count t)
    unfolding release lowered
    release-lowered ip count t e h h' =
        rw (release, e, sub_uint-ok {E = List ℕ} prof 32 count 1 h h') refl

    pub lookup-count_of :
        (ip : ℕ) (t : Tracker) → 1 ≤ count_of ip t → lookup ip t ≡ some (count_of ip t)
    unfolding count_of
    lookup-count_of ip t h = go (lookup ip t) h
      where
        go :
            (o : Option ℕ)
            → 1 ≤ (elim o [ none ↦ 0 | some count ↦ count ])
            → o ≡ some (elim o [ none ↦ 0 | some count ↦ count ])
        go none h = absurd (omega arith)
        go (some n) h = refl

    pub count_of-lowered :
        (ip a count : ℕ) (t : Tracker)
        → count_of a (lowered ip count t) ≡ (if ip == a then count - 1 else count_of a t)
    unfolding lowered
    count_of-lowered ip a count t = elim (Bool-cases (count - 1 == 0)) [
      | inl last ↦ rw (lowered, last, count_of-remove ip a t) (ground (arith, last))
      | inr more ↦ rw (lowered, more) (count_of-insert ip a (count - 1) t)
    ]
