-- ===== src/Pool/Signals.antt =====
-- include/metal/pool.hpp: which threads wait in `acquire`, and which are to call them.
use metal_orm_cpp.Base.{ℕ, ◌+◌, ◌≤◌, ◌≡◌, sym, ◌∙◌, true, false, List, arith}
use metal_orm_cpp.Pool.{State}
use metal_orm_cpp.Pool.Threads.{
  Task, contending, waiting, signal_one, signal_all, dispose, dispose_quietly, then_return,
  then_retry, then_signal,
}
use metal_orm_cpp.Pool.Counters.{sum}

unfoldable pub waits : Task → ℕ
waits waiting = 1
waits t = 0

-- What will still look at the pool or call another thread to look: no waiting thread is asleep for
-- good while there is some.
unfoldable pub supply : Task → ℕ
supply contending = 1
supply (signal_one t) = 1 + supply t
supply (signal_all t) = 1 + supply t
supply (dispose r then_return) = 0
supply (dispose r then_retry) = 1
supply (dispose r then_signal) = 1
supply (dispose_quietly r t) = supply t
supply t = 0

unfoldable pub bells : Task → ℕ
bells (signal_all t) = 1
bells t = 0

-- A wait that follows something else: there is none.
unfoldable pub buried : Task → ℕ
buried (signal_one t) = waits t + buried t
buried (signal_all t) = waits t + buried t
buried (dispose_quietly r t) = waits t + buried t
buried t = 0

pub record Alert (max : ℕ) (s : State) (w p b d : ℕ) : Type 0 where
  pub alive : s.destroyed ≡ false → 1 ≤ w → max ≤ s.leased + s.creating + p
  pub shut : s.destroyed ≡ true → 1 ≤ w → 1 ≤ b
  pub none_buried : d ≡ 0

abbrev pub LocalAlert : ℕ → State → Task → ℕ → ℕ → ℕ → ℕ → Type 0
LocalAlert max s t w p b d = Alert max s (waits t + w) (supply t + p) (bells t + b) (buried t + d)

abbrev pub Awake : ℕ → State → List Task → Type 0
Awake max s ts = Alert max s (sum waits ts) (sum supply ts) (sum bells ts) (sum buried ts)

-- More is to come, and no more wait.
pub more :
    (max : ℕ) (s s' : State) (w p b d w' p' b' d' : ℕ)
    → s'.destroyed ≡ s.destroyed
    → s.leased + s.creating + p ≤ s'.leased + s'.creating + p'
    → b ≤ b'
    → w' ≤ w
    → d' ≤ d
    → Alert max s w p b d
    → Alert max s' w' p' b' d'
more max s s' w p b d w' p' b' d' es ep eb ew ed a = record {
  alive = λ h m. omega (arith, a.alive (sym es ∙ h) (omega arith));
  shut = λ h m. omega (arith, a.shut (sym es ∙ h) (omega arith));
  none_buried = omega (arith, a.none_buried);
}

-- A bell rings, or nobody waits.
pub ringing :
    (max : ℕ) (s s' : State) (w p b d w' p' b' d' : ℕ)
    → s'.destroyed ≡ true
    → 1 ≤ b'
    → d' ≤ d
    → Alert max s w p b d
    → Alert max s' w' p' b' d'
ringing max s s' w p b d w' p' b' d' es eb ed a = record {
  alive = λ h m. ground (arith, es, h);
  shut = λ h m. eb;
  none_buried = omega (arith, a.none_buried);
}

pub nobody :
    (max : ℕ) (s : State) (w p b d w' p' b' d' : ℕ)
    → w' ≡ 0
    → d' ≤ d
    → Alert max s w p b d
    → Alert max s w' p' b' d'
nobody max s w p b d w' p' b' d' ew ed a = record {
  alive = λ h m. omega (arith, ew, m);
  shut = λ h m. omega (arith, ew, m);
  none_buried = omega (arith, a.none_buried);
}
