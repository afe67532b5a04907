-- ===== src/Server/Store/Lifecycle.antt =====
-- A store over a session: any sequence of the calls that change it.
use rdows.Prelude.{
  ℕ, suc, ◌+◌, ◌-◌, ◌^◌, ◌<◌, ◌≡◌, ◌≢◌, refl, ap, ◌∙◌, List, length, true, none, some, err, panic,
  Profile, arith,
}
use rdows.Prelude.Dict.{lookup}
use rdows.Core.Error.{ErrorCode, err_invalid_mkey}
use rdows.Core.Memory.{remote_write, remote_read, remote_atomic}
use rdows.Server.Store.Defs.{
  MemoryRegionEntry, MemoryStore, Rng, is_used, new_store, register, deregister, write_region,
  read_region, atomic_op,
}
use rdows.Server.Store.Invariant.{IsValid, new_store-IsValid}
use rdows.Server.Store.View.{view, view-added, view-removed}
use rdows.Server.Store.Register.{
  fresh_entry, Registered, full, exceeds, unlucky, panics, register-Registered, register-IsValid,
}
use rdows.Server.Store.Deregister.{
  Deregistered, absent, foreign, deregister-Deregistered, deregister-IsValid,
}
use rdows.Server.Store.Access.{
  Refusal, unknown, denied, outside, Target, write_region-Written, read_region-Readout,
}
use rdows.Server.Store.Access
use rdows.Server.Store.Atomic
use rdows.Server.Store.Register
use rdows.Server.Store.Deregister
use rdows.Server.Store.Atomic.{Exchanged, atomic_op-Exchanged}

module _ (prof : Profile) where
  -- A call that changes the store and returns. The 32-bit counter of the L_Keys has room.
  pub data Step (s : MemoryStore) : MemoryStore → Type 0 where
    registers :
        (rng : Rng) (pd access_flags region_len : ℕ)
        → suc s.next_lkey < 2 ^ 32
        → (register prof rng pd access_flags region_len s).0 ≢ panic
        → Step s (register prof rng pd access_flags region_len s).1
    deregisters : (pd lkey : ℕ) → Step s (deregister prof pd lkey s).1
    writes : (rkey offset : ℕ) (bytes : List ℕ) → Step s (write_region rkey offset bytes s).1
    updates :
        (rkey remote_va atomic_type operand1 operand2 : ℕ)
        → Step s (atomic_op rkey remote_va atomic_type operand1 operand2 s).1

  -- The stores that calls lead to.
  pub data Reach (s : MemoryStore) : MemoryStore → Type 0 where
    here : Reach s s
    after : {t u : MemoryStore} → Reach s t → Step t u → Reach s u

  Step-IsValid : {s t : MemoryStore} → Step s t → IsValid s → IsValid t
  Step-IsValid {s} (registers rng pd access_flags region_len room calm) v =
      register-IsValid pd access_flags region_len s rng prof v room calm
  Step-IsValid {s} (deregisters pd lkey) v = deregister-IsValid pd lkey s prof v
  Step-IsValid {s} (writes rkey offset bytes) v =
      elim (write_region-Written rkey offset bytes s v) [
        | Access.refused e why out ↦ rw out v
        | Access.done t out shows valid kept ↦ valid
      ]
  Step-IsValid {s} (updates rkey remote_va atomic_type operand1 operand2) v =
      elim (atomic_op-Exchanged rkey remote_va atomic_type operand1 operand2 s v) [
        | Atomic.refused e why out ↦ rw out v
        | Atomic.misaligned f c sees held odd out ↦ rw out v
        | Atomic.unsupported t not_cas not_faa out ↦ rw out v
        | Atomic.done t value even stores out shows valid kept ↦ valid
      ]

  pub Reach-IsValid : {s t : MemoryStore} → Reach s t → IsValid s → IsValid t
  Reach-IsValid here v = v
  Reach-IsValid (after r st) v = Step-IsValid st (Reach-IsValid r v)

  -- Whatever calls are made on a new store whose byte limit is below 2 ^ 63, it stays valid, as long as
  -- no call panics and the 32-bit counter of L_Keys has room at each registration.
  pub session-IsValid :
      (n m : ℕ) {t : MemoryStore} → m < 2 ^ 63 → Reach (new_store n m) t → IsValid t
  session-IsValid n m h r = Reach-IsValid r (new_store-IsValid n m h)

  -- An R_Key that was drawn and leads nowhere.
  abbrev IsDead : ℕ → MemoryStore → Type 0
  IsDead r s = (is_used r s.used_rkeys ≡ true) × (view s r ≡ none)

  Step-IsDead : {s t : MemoryStore} (r : ℕ) → Step s t → IsValid s → IsDead r s → IsDead r t
  unfolding view
  Step-IsDead {s} r (registers rng pd access_flags region_len room calm) v dead =
      elim (register-Registered pd access_flags region_len s rng prof v room) [
        | full _ out ↦ rw out dead
        | exceeds _ _ out ↦ rw out dead
        | unlucky _ _ out ↦ rw out dead
        | Register.done rkey drawn few fits out ↦
            let entry : MemoryRegionEntry =
              fresh_entry pd access_flags region_len s.next_lkey rkey in
            let shows =
              view-added v entry (s.next_lkey + 1) (s.total_registered_bytes + region_len) r refl
                drawn.fresh in
            rw out (ground (arith, dead.0), ground (arith, dead.0, dead.1, shows))
        | panics _ _ e ↦ absurd (calm e)
      ]
  Step-IsDead {s} r (deregisters pd lkey) v dead = elim (deregister-Deregistered pd lkey s prof v) [
    | absent _ out ↦ rw out dead
    | foreign _ _ _ out ↦ rw out dead
    | Deregister.done e found same fits out ↦
        let shows = view-removed v lkey e (s.total_registered_bytes - length e.content) r found in
        rw out (dead.0, ground (arith, dead.1, shows))
  ]
  Step-IsDead {s} r (writes rkey offset bytes) v dead =
      elim (write_region-Written rkey offset bytes s v) [
        | Access.refused e why out ↦ rw out dead
        | Access.done t out shows valid kept ↦
            (rw kept dead.0, ground (arith, shows r, dead.1, t.sees))
      ]
  Step-IsDead {s} r (updates rkey remote_va atomic_type operand1 operand2) v dead =
      elim (atomic_op-Exchanged rkey remote_va atomic_type operand1 operand2 s v) [
        | Atomic.refused e why out ↦ rw out dead
        | Atomic.misaligned f c sees held odd out ↦ rw out dead
        | Atomic.unsupported t not_cas not_faa out ↦ rw out dead
        | Atomic.done t value even stores out shows valid kept ↦
            (rw kept dead.0, ground (arith, shows r, dead.1, t.sees))
      ]

  Reach-IsDead : {s t : MemoryStore} (r : ℕ) → Reach s t → IsValid s → IsDead r s → IsDead r t
  Reach-IsDead r here v dead = dead
  Reach-IsDead r (after reach st) v dead =
      Step-IsDead r st (Reach-IsValid reach v) (Reach-IsDead r reach v dead)

-- Every access with the R_Key is refused as an unknown one, and changes nothing.
pub record IsRevoked (r : ℕ) (t : MemoryStore) : Type 0 where
  pub no_read : (offset len : ℕ) → read_region r offset len t ≡ err err_invalid_mkey
  pub no_write :
      (offset : ℕ) (bytes : List ℕ) → write_region r offset bytes t ≡ (err err_invalid_mkey, t)
  pub no_update :
      (remote_va atomic_type operand1 operand2 : ℕ)
      → atomic_op r remote_va atomic_type operand1 operand2 t ≡ (err err_invalid_mkey, t)

module _ (r : ℕ) (t : MemoryStore) (v : IsValid t) (gone : view t r ≡ none) where
  only_unknown :
      (right start len : ℕ) (e : ErrorCode) → Refusal r right start len t e → e ≡ err_invalid_mkey
  only_unknown right start len e (unknown nothing) = refl
  only_unknown right start len e (denied flags content sees lacking) = ground (arith, gone)
  only_unknown right start len e (outside flags content sees held beyond) = ground (arith, gone)

  no_target : (right start len : ℕ) → Target r right start len t → ⊥
  no_target right start len target = ground (arith, gone, target.sees)

  gone-IsRevoked : IsRevoked r t
  gone-IsRevoked = record {
    no_read = λ offset len. elim (read_region-Readout r offset len t v) [
      | Access.Readout.refused e why out ↦
          out ∙ ap (λ c. err c) (only_unknown remote_read offset len e why)
      | Access.Readout.done target out ↦ absurd (no_target remote_read offset len target)
    ];
    no_write = λ offset bytes. elim (write_region-Written r offset bytes t v) [
      | Access.refused e why out ↦
          out ∙ ap (λ c. (err c, t)) (only_unknown remote_write offset (length bytes) e why)
      | Access.done target out shows valid kept ↦
          absurd (no_target remote_write offset (length bytes) target)
    ];
    no_update = λ va kind op1 op2. elim (atomic_op-Exchanged r va kind op1 op2 t v) [
      | Atomic.refused e why out ↦
          out ∙ ap (λ c. (err c, t)) (only_unknown remote_atomic va 8 e why)
      | Atomic.misaligned f c sees held odd out ↦ ground (arith, gone)
      | Atomic.unsupported target not_cas not_faa out ↦ absurd (no_target remote_atomic va 8 target)
      | Atomic.done target value even stores out shows valid kept ↦
          absurd (no_target remote_atomic va 8 target)
    ];
  }

-- Once the protection domain that owns a region of a valid store has deregistered it, every access
-- with its R_Key is refused as an unknown one and changes nothing, whatever calls came between, as
-- long as none of them panicked and the counter of L_Keys had room at each registration.
pub deregister-IsRevoked :
    (prof : Profile) (pd lkey : ℕ) (s : MemoryStore) (e : MemoryRegionEntry) {t : MemoryStore}
    → IsValid s
    → lookup lkey s.regions ≡ some e
    → e.pd ≡ pd
    → Reach prof (deregister prof pd lkey s).1 t
    → IsRevoked e.rkey t
deregister-IsRevoked prof pd lkey s e {t} v found owner later =
    let used : is_used e.rkey s.used_rkeys ≡ true = v.drawn e.rkey lkey (v.keyed lkey e found).1 in
    let valid = deregister-IsValid pd lkey s prof v in
    let dead : IsDead prof e.rkey (deregister prof pd lkey s).1 =
      elim (deregister-Deregistered pd lkey s prof v) [
        | absent nothing _ ↦ ground (arith, found)
        | foreign other there differs _ ↦ ground (arith, found)
        | Deregister.done other there same fits out ↦
            let shows =
              view-removed v lkey other (s.total_registered_bytes - length other.content) e.rkey
                there in
            rw out (used, ground (arith, shows, found))
      ] in
    gone-IsRevoked e.rkey t (Reach-IsValid prof later valid)
      (Reach-IsDead prof e.rkey later valid dead).1
