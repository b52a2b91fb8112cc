-- ===== src/StaticSource/Loop.antt =====
-- internal/staticsources/handler.go: resolveSource and run. Texts are code points. An instance is what
-- Run of the source is called with, and the configurations that it has received since. Each new
-- configuration is sent by a goroutine of its own, so that any of those under way can be received
-- next; a goroutine can give up once the call of Run that it was meant for has been cancelled.
use plux_mtx.Base.{
  ℕ, zero, suc, ◌-◌, String, Bool, true, false, ◌&&◌, ◌==◌, not, if◌then◌else◌, Option, some, none,
  List, [], ◌∷◌, ◌++◌, length, get_elem?, codes,
}
use plux_mtx.Conf.PathConf.{PathConf}
use plux_mtx.Record.Offset.{format_int}

unfoldable pub has_prefix : List ℕ → List ℕ → Bool
has_prefix [] s = true
has_prefix (p ∷ ps) [] = false
has_prefix (p ∷ ps) (c ∷ s) = p == c && has_prefix ps s

-- strings.ReplaceAll, with how much of the text an occurrence still covers.
unfoldable pub replace_from : List ℕ → List ℕ → ℕ → List ℕ → List ℕ
unfolding has_prefix
replace_from old new skip [] = []
replace_from old new (suc n) (c ∷ s) = replace_from old new n s
replace_from old new zero (c ∷ s) =
    let after = replace_from old new (length old - 1) s in
    let next = replace_from old new zero s in
    if has_prefix old (c ∷ s) then new ++ after else c ∷ next

-- "$G" and the number of the group.
unfoldable pub group_name : ℕ → List ℕ
unfolding format_int
group_name i = 36 ∷ 71 ∷ format_int i

unfoldable pub replace_groups : ℕ → List String → List ℕ → List ℕ
unfolding replace_from group_name
replace_groups i [] s = s
replace_groups i (m ∷ ms) s = replace_groups (suc i) ms (replace_from (group_name i) (codes m) 0 s)

-- The first match is the whole name.
unfoldable pub but_whole : List String → List String
but_whole [] = []
but_whole (m ∷ ms) = ms

unfoldable pub resolve_source : List ℕ → List String → String → List ℕ
unfolding replace_groups but_whole replace_from
resolve_source s matches query =
    replace_from (codes "$MTX_QUERY") (codes query) 0 (replace_groups 1 (but_whole matches) s)

pub record RunningSource : Type 0 where
  pub resolved_source : List ℕ
  pub conf : PathConf
  pub received : List PathConf  -- newest first

pub record HandlerLoop : Type 0 where
  pub conf : PathConf
  pub matches : List String
  pub query : String
  -- The call of Run that has not returned, and the number of calls.
  pub instance_run : Option RunningSource
  pub runs : ℕ
  -- The configurations under way, each with the number of the call that it is meant for.
  pub offers : List (ℕ × PathConf)
  pub recreating : Bool
  pub recreate_timer : Option ℕ
  -- How many requests of the source have been passed to the path.
  pub relayed : ℕ

-- Five seconds, in nanoseconds.
abbrev pub retry_pause : ℕ
retry_pause = 5000000000

unfoldable pub recreate : HandlerLoop → HandlerLoop
unfolding resolve_source
recreate h = record h {
  instance_run = some (record {
    resolved_source = resolve_source (codes h.conf.source) h.matches h.query;
    conf = h.conf;
    received = [];
  });
  runs = suc h.runs;
}

unfoldable pub start_loop : PathConf → List String → String → HandlerLoop
unfolding recreate
start_loop conf matches query = recreate (record {
  conf = conf;
  matches = matches;
  query = query;
  instance_run = none;
  runs = 0;
  offers = [];
  recreating = false;
  recreate_timer = none;
  relayed = 0;
})

-- The number is the place of a configuration among those under way.
pub data LoopEvent : Type 0 where
  run_err set_ready set_not_ready recreate_timer_fired terminated : LoopEvent
  reload_conf : PathConf → LoopEvent
  offer_received offer_dropped : ℕ → LoopEvent

unfoldable pub remove_at : ℕ → List (ℕ × PathConf) → List (ℕ × PathConf)
remove_at n [] = []
remove_at zero (o ∷ os) = os
remove_at (suc n) (o ∷ os) = o ∷ remove_at n os

unfoldable pub receive : Option (ℕ × PathConf) → Option RunningSource → Option RunningSource
receive none r = r
receive (some o) none = none
receive (some o) (some r) = some (record r { received = o.1 ∷ r.received })

-- The loop goes on, or has returned.
pub data LoopState : Type 0 where
  looping : HandlerLoop → LoopState
  returned : HandlerLoop → LoopState

unfoldable pub loop_step : LoopEvent → HandlerLoop → LoopState
unfolding recreate remove_at receive
loop_step run_err h =
    looping (record h { instance_run = none; recreating = true; recreate_timer = some retry_pause })
loop_step set_ready h = looping (record h { relayed = suc h.relayed })
loop_step set_not_ready h = looping (record h { relayed = suc h.relayed })
loop_step (reload_conf conf) h = looping (record h {
  conf = conf;
  offers = if not h.recreating then (h.runs, conf) ∷ h.offers else h.offers;
})
loop_step (offer_received n) h = looping (record h {
  instance_run = receive (get_elem? h.offers n) h.instance_run;
  offers = remove_at n h.offers;
})
loop_step (offer_dropped n) h = looping (record h { offers = remove_at n h.offers })
loop_step recreate_timer_fired h =
    looping (record (recreate (record h { recreate_timer = none })) { recreating = false })
loop_step terminated h = returned (if not h.recreating then record h { instance_run = none } else h)

unfoldable pub loop_run : List LoopEvent → LoopState → LoopState
unfolding loop_step
loop_run [] s = s
loop_run (e ∷ es) (returned h) = returned h
loop_run (e ∷ es) (looping h) = loop_run es (loop_step e h)
