-- ===== src/StaticSource/Running.antt =====
-- internal/staticsources/handler.go: one instance at most, and never none without a retry.
use plux_mtx.Base.{
  ℕ, zero, suc, String, Bool, true, false, ◌≡◌, refl, ◌≢◌, Option, some, none, List, [], ◌∷◌, not,
  if◌then◌else◌, get_elem?, All, Ensures,
}
use plux_mtx.Conf.PathConf.{PathConf}
use plux_mtx.StaticSource.Loop.{
  RunningSource, HandlerLoop, retry_pause, recreate, start_loop, receive, remove_at, LoopEvent,
  run_err, set_ready, set_not_ready, recreate_timer_fired, terminated, reload_conf, offer_received,
  offer_dropped, LoopState, looping, returned, loop_step, loop_run,
}

-- No configuration is under way to this call.
abbrev pub NoneFor : ℕ → List (ℕ × PathConf) → Type 0
NoneFor run offers = All (λ (o : ℕ × PathConf). o.0 ≢ run) offers

-- Either an instance runs, no retry is due, and it has the configuration of the loop if it has received
-- no other and none is under way to it; or none runs and a retry is due.
abbrev pub IsKept :
    PathConf → Option RunningSource → ℕ → List (ℕ × PathConf) → Bool → Option ℕ → Type 0
IsKept conf (some r) runs offers recreating timer =
    (recreating ≡ false) × (timer ≡ none) × (r.received ≡ [] → NoneFor runs offers → r.conf ≡ conf)
IsKept conf none runs offers recreating timer = (recreating ≡ true) × (timer ≡ some retry_pause)

abbrev pub IsRunning : LoopState → Type 0
IsRunning (looping h) = IsKept h.conf h.instance_run h.runs h.offers h.recreating h.recreate_timer
IsRunning (returned h) = h.instance_run ≡ none

-- An instance returns, asks and receives only if it runs, a timer fires only if it is armed, and
-- a configuration under way is given up only if the call that it was meant for is over.
abbrev pub Occurs : LoopEvent → HandlerLoop → Type 0
Occurs run_err h = h.instance_run ≢ none
Occurs recreate_timer_fired h = h.recreate_timer ≢ none
Occurs set_ready h = h.instance_run ≢ none
Occurs set_not_ready h = h.instance_run ≢ none
Occurs terminated h = Unit
Occurs (reload_conf c) h = Unit
Occurs (offer_received n) h = (h.instance_run ≢ none) × Ensures (λ o. Unit) (get_elem? h.offers n)
Occurs (offer_dropped n) h =
    (h.instance_run ≢ none → Ensures (λ (o : ℕ × PathConf). o.0 ≢ h.runs) (get_elem? h.offers n))

abbrev pub OccurAll : List LoopEvent → LoopState → Type 0
OccurAll [] s = Unit
OccurAll (e ∷ es) (returned h) = Unit
OccurAll (e ∷ es) (looping h) = Occurs e h × OccurAll es (loop_step e h)

NoneFor-remove_at :
    (run n : ℕ) (os : List (ℕ × PathConf))
    → Ensures (λ (o : ℕ × PathConf). o.0 ≢ run) (get_elem? os n)
    → NoneFor run (remove_at n os)
    → NoneFor run os
unfolding remove_at
NoneFor-remove_at run n [] e h = h
NoneFor-remove_at run zero (o ∷ os) e h = (e, h)
NoneFor-remove_at run (suc n) (o ∷ os) e h = (h.0, NoneFor-remove_at run n os e h.1)

reload-IsKept :
    (conf old : PathConf) (r : Option RunningSource) (runs : ℕ) (offers : List (ℕ × PathConf))
    (recreating : Bool) (timer : Option ℕ)
    → IsKept old r runs offers recreating timer
    → IsKept conf r runs (if not recreating then (runs, conf) ∷ offers else offers) recreating timer
reload-IsKept conf old none runs offers recreating timer k = k
reload-IsKept conf old (some r) runs offers true timer k = cc k.0
reload-IsKept conf old (some r) runs offers false timer k = (refl, k.1, λ e h. absurd (h.0 refl))

receive-IsKept :
    (conf : PathConf) (r : Option RunningSource) (runs n : ℕ) (offers : List (ℕ × PathConf))
    (recreating : Bool) (timer : Option ℕ) (o : Option (ℕ × PathConf))
    → r ≢ none
    → Ensures (λ o. Unit) o
    → IsKept conf r runs offers recreating timer
    → IsKept conf (receive o r) runs (remove_at n offers) recreating timer
unfolding receive
receive-IsKept conf r runs n offers recreating timer none h e k = elim e [ ]
receive-IsKept conf none runs n offers recreating timer (some o) h e k = k
receive-IsKept conf (some r) runs n offers recreating timer (some o) h e k = (k.0, k.1, λ q m. cc q)

drop-IsKept :
    (conf : PathConf) (r : Option RunningSource) (runs n : ℕ) (offers : List (ℕ × PathConf))
    (recreating : Bool) (timer : Option ℕ)
    → (r ≢ none → Ensures (λ (o : ℕ × PathConf). o.0 ≢ runs) (get_elem? offers n))
    → IsKept conf r runs offers recreating timer
    → IsKept conf r runs (remove_at n offers) recreating timer
drop-IsKept conf none runs n offers recreating timer h k = k
drop-IsKept conf (some r) runs n offers recreating timer h k =
    (k.0, k.1, λ q m. k.2 q (NoneFor-remove_at runs n offers (h (λ e. cc)) m))

terminated-IsRunning :
    (h : HandlerLoop)
    → IsRunning (looping h)
    → (if not h.recreating then record h { instance_run = none } else h).instance_run ≡ none
terminated-IsRunning h k = go h.instance_run refl k
  where
    go :
        (r : Option RunningSource)
        → h.instance_run ≡ r
        → IsKept h.conf r h.runs h.offers h.recreating h.recreate_timer
        → (if not h.recreating then record h { instance_run = none } else h).instance_run ≡ none
    go none e k = rw (k.0) e
    go (some r) e k = rw (k.0) refl

loop_step-IsRunning :
    (e : LoopEvent) (h : HandlerLoop)
    → Occurs e h
    → IsRunning (looping h)
    → IsRunning (loop_step e h)
unfolding loop_step recreate
loop_step-IsRunning run_err h o k = (refl, refl)
loop_step-IsRunning set_ready h o k = k
loop_step-IsRunning set_not_ready h o k = k
loop_step-IsRunning (reload_conf c) h o k =
    reload-IsKept c h.conf h.instance_run h.runs h.offers h.recreating h.recreate_timer k
loop_step-IsRunning (offer_received n) h o k =
    receive-IsKept h.conf h.instance_run h.runs n h.offers h.recreating h.recreate_timer
      (get_elem? h.offers n) o.0 o.1 k
loop_step-IsRunning (offer_dropped n) h o k =
    drop-IsKept h.conf h.instance_run h.runs n h.offers h.recreating h.recreate_timer o k
loop_step-IsRunning recreate_timer_fired h o k = (refl, refl, λ q m. refl)
loop_step-IsRunning terminated h o k = terminated-IsRunning h k

loop_run-IsRunning :
    (es : List LoopEvent) (s : LoopState) → OccurAll es s → IsRunning s → IsRunning (loop_run es s)
unfolding loop_run
loop_run-IsRunning [] s o k = k
loop_run-IsRunning (e ∷ es) (returned h) o k = k
loop_run-IsRunning (e ∷ es) (looping h) o k =
    loop_run-IsRunning es (loop_step e h) o.1 (loop_step-IsRunning e h o.0 k)

-- From its start on and through any events that can occur, the loop of a source either has one instance
-- running with no retry due, or none and a retry due in five seconds; an instance that has received
-- no configuration since it was started, and to which none is under way, was started with the one
-- that the loop holds. Once the loop has returned, no instance runs.
pub loop_run-start_loop-IsRunning :
    (conf : PathConf) (matches : List String) (query : String) (es : List LoopEvent)
    → OccurAll es (looping (start_loop conf matches query))
    → IsRunning (loop_run es (looping (start_loop conf matches query)))
unfolding start_loop recreate
loop_run-start_loop-IsRunning conf matches query es o =
    loop_run-IsRunning es (looping (start_loop conf matches query)) o (refl, refl, λ q m. refl)

-- Two configurations that are loaded one after the other, while an instance runs, can reach it in the
-- other order: the loop then holds the second, and the instance has received the first last.
pub reload_conf-reordered :
    (a b : PathConf) (h : HandlerLoop) (r : RunningSource)
    → h.instance_run ≡ some r
    → h.recreating ≡ false
    → loop_run
        (reload_conf a ∷ reload_conf b ∷ offer_received 0 ∷ offer_received 0 ∷ [])
        (looping h)
      ≡ looping
          (record h { conf = b; instance_run = some (record r { received = a ∷ b ∷ r.received }) })
unfolding loop_run loop_step receive remove_at
reload_conf-reordered a b h r e k = rw (k, e) refl
