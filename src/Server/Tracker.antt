-- ===== src/Server/Tracker.antt =====
-- The sessions of each address, and the test of the subprotocol (crates/rdows-server/src/lib.rs).
use rdows.Prelude.{
  ℕ, List, [], ◌∷◌, Bool, false, not, ◌||◌, none, some, Result, ok, err, panic, Profile, add_uint,
  sub_uint, leb, ◌==◌, if◌then◌else◌,
}
use rdows.Prelude.Dict.{Dict, lookup, insert, remove}
use rdows.Bytes.Texts.{text}
use rdows.Core.Subprotocol.{HeaderValue, value_has_rdows}

-- `SessionTracker`, behind its lock.
abbrev pub Tracker : Type 0
Tracker = Dict ℕ

-- `entry(ip).or_insert(0)`
unfoldable pub count_of : ℕ → Tracker → ℕ
count_of ip tracker = elim (lookup ip tracker) [ none ↦ 0 | some count ↦ count ]

-- The first locked part of `handle_connection`.
unfoldable pub admit : Profile → ℕ → ℕ → Tracker → Result (List ℕ) (Unit {0}) × Tracker
admit prof max_sessions_per_ip ip tracker =
    let count : ℕ = count_of ip tracker in
    if leb max_sessions_per_ip count
    then (err (text "per-IP session limit exceeded"), insert ip count tracker)
    else elim (add_uint {E = List ℕ} prof 32 count 1) [
      | ok next ↦ (ok tt, insert ip next tracker)
      | _ ↦ (panic, insert ip count tracker)
    ]

-- The last locked part, and that of a handshake or upgrade that failed.
unfoldable pub release : Profile → ℕ → Tracker → Result (List ℕ) (Unit {0}) × Tracker
release prof ip tracker = elim (lookup ip tracker) [
  | none ↦ (ok tt, tracker)
  | some count ↦ elim (sub_uint {E = List ℕ} prof 32 count 1) [
    | ok next ↦ (ok tt, if next == 0 then remove ip tracker else insert ip next tracker)
    | _ ↦ (panic, tracker)
  ]
]

unfoldable pub any_has_rdows : List HeaderValue → Bool
any_has_rdows [] = false
any_has_rdows (v ∷ values) = value_has_rdows v || any_has_rdows values

-- `check_subprotocol`: the header that the response gets, or the text of a BAD_REQUEST.
unfoldable pub check_subprotocol : List HeaderValue → Result (List ℕ) (List ℕ)
check_subprotocol values =
    if not (any_has_rdows values)
    then err (text "missing rdows.v1 subprotocol")
    else ok (text "rdows.v1")
