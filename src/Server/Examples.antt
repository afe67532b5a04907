-- ===== src/Server/Examples.antt =====
-- The theorems on the sessions of an address at concrete ones.
use rdows.Prelude.{ℕ, ◌≤◌, ◌<◌, ◌≡◌, refl, [], ◌∷◌, ok, err, checked, arith}
use rdows.Prelude.Dict.{lookup, insert}
use rdows.Bytes.Texts.{text}
use rdows.Server.Tracker.{count_of, admit, release}
use rdows.Server.Sessions.{occurrences, Counts, Reaches, start, next, admitted}
use rdows.Server.Sharing.{admit-release-Counts, admit-release}

-- Address 9 has one session, out of at most two.
one_session : Reaches checked 2 ((9, 1) ∷ []) (9 ∷ [])
unfolding admit count_of lookup insert
one_session = next start (admitted 9 [] [] ((9, 1) ∷ []) refl)

admit-release-Counts_example : Counts 2 ((9, 1) ∷ []) (9 ∷ [])
admit-release-Counts_example =
    admit-release-Counts checked 2 (omega arith) ((9, 1) ∷ []) (9 ∷ []) one_session

admit-release_example :
    ((ip : ℕ) → occurrences ip (9 ∷ []) < 2 → (admit checked 2 ip ((9, 1) ∷ [])).0 ≡ ok tt)
    × ((ip : ℕ)
        → 2 ≤ occurrences ip (9 ∷ [])
        → (admit checked 2 ip ((9, 1) ∷ [])).0 ≡ err (text "per-IP session limit exceeded"))
    × ((ip : ℕ) → 1 ≤ occurrences ip (9 ∷ []) → (release checked ip ((9, 1) ∷ [])).0 ≡ ok tt)
admit-release_example = admit-release checked 2 (omega arith) ((9, 1) ∷ []) (9 ∷ []) one_session
