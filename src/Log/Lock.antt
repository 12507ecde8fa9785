-- ===== src/Log/Lock.antt =====
-- The lock: each operation takes it and gives it back.
use psuart.Prelude.{
  ℕ, ◌≡◌, ◌≤◌, ◌<◌, refl, arith, List, [], ◌∷◌, Option, some, none, ◌>>=◌, ltb, true, false, ◌-◌,
  ◌^◌, min, max, bit_and, bit_or, if◌then◌else◌,
}
use psuart.Log.{
  Log, lock_wait, lock_try, unlock_log_level, get_max_log_level, get_min_log_level, set_log_level,
  get_log_module, set_log_module, lm_flag, add_log_module, remove_log_module,
}

-- the lock is free, and the levels are in order
abbrev pub IsFree : Log → Type 0
IsFree st = (st.log_signle ≡ 0) × (st.min_log_level ≤ st.max_log_level)

-- a call from outside
pub data Call : Type 0 where
  max_level : Call
  min_level : Call
  change_level : ℕ → ℕ → Call
  module_mask : Call
  change_module : ℕ → Call
  add_module : ℕ → Call
  remove_module : ℕ → Call

-- a module that is added or removed is one whose bit `1 << x` gives
abbrev pub HasBit : Call → Type 0
HasBit (add_module m) = m < 31
HasBit (remove_module m) = m < 31
HasBit max_level = Unit {0}
HasBit min_level = Unit {0}
HasBit (change_level a b) = Unit {0}
HasBit module_mask = Unit {0}
HasBit (change_module m) = Unit {0}

unfoldable pub call : Log → Call → Option Log
call st max_level = get_max_log_level st >>= λ got. some got.0
call st min_level = get_min_log_level st >>= λ got. some got.0
call st (change_level a b) = set_log_level st a b
call st module_mask = get_log_module st >>= λ got. some got.0
call st (change_module m) = set_log_module st m
call st (add_module m) = add_log_module st m
call st (remove_module m) = remove_log_module st m

unfoldable pub calls : Log → List Call → Option Log
calls st [] = some st
calls st (c ∷ cs) = call st c >>= λ st'. calls st' cs

abbrev pub AllHaveBit : List Call → Type 0
AllHaveBit [] = Unit {0}
AllHaveBit (c ∷ cs) = HasBit c × AllHaveBit cs

pub lock_wait_free :
    (st : Log) → st.log_signle ≡ 0 → lock_wait st ≡ some (record st { log_signle = 1 })
unfolding lock_wait
lock_wait_free st free = rw free

pub lock_wait_held : (st : Log) → 0 < st.log_signle → lock_wait st ≡ none
unfolding lock_wait
lock_wait_held st held = let h : ltb 0 st.log_signle ≡ true = ground arith in rw h

-- what a call leaves of a free log
abbrev pub after : Log → Call → Log
after st max_level = record st { log_signle = 0 }
after st min_level = record st { log_signle = 0 }
after st (change_level a b) = record st {
  log_signle = 0;
  min_log_level = min a b;
  max_log_level = max a b;
}
after st module_mask = record st { log_signle = 0 }
after st (change_module m) = record st { log_signle = 0; log_module = m }
after st (add_module m) = record st { log_signle = 0; log_module = bit_or st.log_module (2 ^ m) }
after st (remove_module m) = record st {
  log_signle = 0;
  log_module = bit_and st.log_module (2 ^ 32 - 1 - 2 ^ m);
}

levels_ordered :
    (a b : ℕ) → ((if ltb b a then a else b) ≡ max a b) × ((if ltb a b then a else b) ≡ min a b)
levels_ordered a b = (ground arith, ground arith)

-- A call on a free log, for a module that has a bit, returns, and leaves what it asks for, the lock
-- free and the levels in order.
pub call-IsFree :
    (st : Log) (c : Call)
    → IsFree st
    → HasBit c
    → (call st c ≡ some (after st c)) × IsFree (after st c)
unfolding call get_max_log_level get_min_log_level set_log_level get_log_module set_log_module
    add_log_module remove_log_module lm_flag unlock_log_level
call-IsFree st max_level h bit = (rw (lock_wait_free st h.0), (refl, h.1))
call-IsFree st min_level h bit = (rw (lock_wait_free st h.0), (refl, h.1))
call-IsFree st (change_level a b) h bit = (
  rw (lock_wait_free st h.0, (levels_ordered a b).0, (levels_ordered a b).1),
  (refl, omega arith),
)
call-IsFree st module_mask h bit = (rw (lock_wait_free st h.0), (refl, h.1))
call-IsFree st (change_module m) h bit = (rw (lock_wait_free st h.0), (refl, h.1))
call-IsFree st (add_module m) h bit =
    let small : ltb m 31 ≡ true = ground (arith, bit) in
    (rw (lock_wait_free st h.0, small), (refl, h.1))
call-IsFree st (remove_module m) h bit =
    let small : ltb m 31 ≡ true = ground (arith, bit) in
    (rw (lock_wait_free st h.0, small), (refl, h.1))

-- Any sequence of calls on a free log, for modules below 31, returns: no call waits for a lock that an
-- earlier one kept, and the levels stay in order.
pub calls-IsFree :
    (st : Log) (cs : List Call)
    → IsFree st
    → AllHaveBit cs
    → (st' : Log) × (calls st cs ≡ some st') × IsFree st'
unfolding calls
calls-IsFree st [] h bits = (st, refl, h)
calls-IsFree st (c ∷ cs) h bits =
    let (done, free) = call-IsFree st c h bits.0 in
    let (st', returned, settled) = calls-IsFree (after st c) cs free bits.1 in
    (st', rw (calls, done) returned, settled)

-- A log whose lock is held once lets no call return, does not grant the lock to a try, and is free again
-- for the next call when its one holder unlocks it.
pub call_held :
    (st : Log) (c : Call)
    → st.log_signle ≡ 1
    → (call st c ≡ none)
      × (lock_try st ≡ (st, false))
      × (unlock_log_level st ≡ (record st { log_signle = 0 }, true))
unfolding call get_max_log_level get_min_log_level set_log_level get_log_module set_log_module
    add_log_module remove_log_module lock_try unlock_log_level
call_held st c held =
    let waits = lock_wait_held st (omega (arith, held)) in
    (
      elim c as (λ k. call st k ≡ none) [
        | max_level ↦ rw waits
        | min_level ↦ rw waits
        | change_level a b ↦ rw waits
        | module_mask ↦ rw waits
        | change_module m ↦ rw waits
        | add_module m ↦ rw waits
        | remove_module m ↦ rw waits
      ],
      rw (lock_try, held),
      rw (unlock_log_level, held),
    )
