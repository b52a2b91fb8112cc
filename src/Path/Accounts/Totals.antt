-- ===== src/Path/Accounts/Totals.antt =====
-- The accounts of the requests through the end of a path, and through any run.
use plux_mtx.Base.{
  ℕ, String, ◌+◌, ◌≡◌, refl, true, false, Option, some, List, [], ◌∷◌, arith, Yields, Yields-bind,
  Yields-if, Yields-mono, Yields-eq, is_some, if◌then◌else◌, ◌∙◌,
}
use plux_mtx.Conf.PathConf.{PathConf}
use plux_mtx.Path.State.{
  CorePath, Effect, Source, emit, terminated, describe_err, hook_un_init, close_path,
  hook_un_demand, path_not_ready,
}
use plux_mtx.Path.OnDemand.{stop_handler}
use plux_mtx.Path.Ready.{set_not_ready, close_recorder, close_stream}
use plux_mtx.Path.Run.{
  Event, describe, ends, refuse_held, close_source, close_down, refuse, step_open, step, run, start,
  initialize,
}
use plux_mtx.Path.Ledger.{describe_account, reader_account}
use plux_mtx.Path.Accounts.Parts.{Adds}
use plux_mtx.Path.Exact.{
  close_readers_lem, describes_answered-closed_out, readers_answered-closed_out, describe_out,
  describes_answered-refuse_out, readers_answered-refuse_out, describes_answered-describe_out,
  readers_answered-describe_out,
}
use plux_mtx.Path.Invariant.Steps.{refuse_held_lem, refused_out}
use plux_mtx.Path.Accounts.Rounds.{describes_asked, readers_asked}
use plux_mtx.Path.Accounts.Steps.{handle-Adds}

refuse_held-account :
    (id : ℕ) (p : CorePath)
    → p.done ≡ false
    → (describe_account id (refuse_held p) ≡ describe_account id p)
      × (reader_account id (refuse_held p) ≡ reader_account id p)
      × ((refuse_held p).done ≡ true)
unfolding refused_out describe_account reader_account
refuse_held-account id p h =
    let es : List Effect = hook_un_init ∷ (close_path ∷ p.out) in
    let fs : List Effect = describe_out (describe_err terminated) p.describe_requests_on_hold es in
    rw (refuse_held_lem p) (
      ground (
        arith,
        describes_answered-refuse_out id terminated p.reader_add_requests_on_hold fs,
        readers_answered-refuse_out id terminated p.reader_add_requests_on_hold fs,
        describes_answered-describe_out id (describe_err terminated) p.describe_requests_on_hold es,
        readers_answered-describe_out id (describe_err terminated) p.describe_requests_on_hold es,
      ))

-- The account of an ended path stays as it is.
record Keeps (id : ℕ) (p q : CorePath) : Type 0 where
  describes : describe_account id q ≡ describe_account id p
  readers : reader_account id q ≡ reader_account id p
  ended : q.done ≡ true

Keeps-trans : {id : ℕ} {p q t : CorePath} → Keeps id p q → Keeps id q t → Keeps id p t
Keeps-trans a b = record {
  describes = b.describes ∙ a.describes;
  readers = b.readers ∙ a.readers;
  ended = b.ended;
}

module _ (id : ℕ) (p : CorePath) (h : p.done ≡ true) where
  set_not_ready-Keeps : Yields (Keeps id p) (set_not_ready p)
  unfolding set_not_ready close_recorder close_stream describe_account reader_account
  set_not_ready-Keeps = rw (close_readers_lem p.readers (emit path_not_ready p)) (
      ground (
        arith,
        describes_answered-closed_out id p.readers (path_not_ready ∷ p.out),
        readers_answered-closed_out id p.readers (path_not_ready ∷ p.out),
      ))

  close_source-Keeps : (s : Option Source) → Yields (Keeps id p) (close_source s p)
  unfolding close_source stop_handler describe_account reader_account
  close_source-Keeps s = ground arith

  un_demand-Keeps :
      Keeps id p (if p.on_un_demand_hook then emit (hook_un_demand "path destroyed") p else p)
  unfolding describe_account reader_account
  un_demand-Keeps = ground arith

  Keeps-self : Keeps id p p
  Keeps-self = record { describes = refl; readers = refl; ended = h }

close_down-Keeps : (id : ℕ) (p : CorePath) → p.done ≡ false → Yields (Keeps id p) (close_down p)
unfolding close_down
close_down-Keeps id p h =
    let a = refuse_held-account id p h in
    let start : Keeps id p (refuse_held p) = record {
      describes = a.0;
      readers = a.1;
      ended = a.2;
    } in
    Yields-bind (Keeps id p) (Keeps id p) _ _
      (Yields-if (Keeps id p) (is_some (refuse_held p).stream) _ _
        (λ _.
          Yields-mono (Keeps id (refuse_held p)) (Keeps id p) _
            (set_not_ready-Keeps id (refuse_held p) a.2) (λ q b. Keeps-trans start b))
        (λ _. start))
      (λ q b.
        Yields-bind (Keeps id p) (Keeps id p) _ _
          (Yields-mono (Keeps id q) (Keeps id p) _ (close_source-Keeps id q b.ended q.source)
            (λ t c. Keeps-trans b c))
          (λ t c. Keeps-trans c (un_demand-Keeps id t c.ended)))

-- The accounts of a request after a round.
abbrev IsCounted : ℕ → Event → CorePath → CorePath → Type 0
IsCounted id e p q =
    (describe_account id q ≡ describe_account id p + describes_asked id e)
    × (reader_account id q ≡ reader_account id p + readers_asked id e)

step_open-IsCounted :
    (id : ℕ) (e : Event) (p : CorePath) → p.done ≡ false → Yields (IsCounted id e p) (step_open e p)
unfolding step_open
step_open-IsCounted id e p h =
    Yields-bind (Adds id (describes_asked id e) (readers_asked id e) p) (IsCounted id e p) _ _
      (handle-Adds id e p h)
      (λ q a.
        Yields-if (IsCounted id e p) (ends e q) _ _
          (λ _.
            Yields-mono (Keeps id q) (IsCounted id e p) _ (close_down-Keeps id q a.looping)
              (λ t k. (k.describes ∙ a.describes, k.readers ∙ a.readers)))
          (λ _. (a.describes, a.readers)))

refuse-IsCounted :
    (id : ℕ) (e : Event) (p : CorePath) → p.done ≡ true → IsCounted id e p (refuse e p)
unfolding refuse describe_account reader_account
refuse-IsCounted id (describe req) p h = ground arith
refuse-IsCounted id _ p h = ground arith

step-IsCounted : (id : ℕ) (e : Event) (p : CorePath) → Yields (IsCounted id e p) (step e p)
unfolding step
step-IsCounted id e p =
    Yields-if (IsCounted id e p) p.done _ _ (refuse-IsCounted id e p) (step_open-IsCounted id e p)

-- How often the events of a run ask the request.
abbrev pub total : (Event → ℕ) → List Event → ℕ
total f [] = 0
total f (e ∷ es) = f e + total f es

abbrev IsTotal : ℕ → List Event → CorePath → CorePath → Type 0
IsTotal id es p q =
    (describe_account id q ≡ describe_account id p + total (describes_asked id) es)
    × (reader_account id q ≡ reader_account id p + total (readers_asked id) es)

run-IsTotal : (id : ℕ) (es : List Event) (p : CorePath) → Yields (IsTotal id es p) (run es p)
unfolding run
run-IsTotal id [] p = (omega arith, omega arith)
run-IsTotal id (e ∷ es) p =
    Yields-bind (IsCounted id e p) (IsTotal id (e ∷ es) p) _ _ (step-IsCounted id e p) (λ q a.
      Yields-mono (IsTotal id es q) (IsTotal id (e ∷ es) p) _ (run-IsTotal id es q)
        (λ t b. (omega arith, omega arith)))

start-account :
    (id : ℕ) (c : PathConf) (name : String)
    → (describe_account id (start (initialize c name)) ≡ 0)
      × (reader_account id (start (initialize c name)) ≡ 0)
unfolding start initialize describe_account reader_account
start-account id c name = ground arith

-- From the creation of a path on, through any events whatever that do not panic, the answers to a
-- describe request and the times that it is on hold on a path that has not ended add up to the
-- times that it was asked; the same holds of a reader request. So none is lost or answered twice.
pub run-account :
    (id : ℕ) (es : List Event) (c : PathConf) (name : String) (q : CorePath)
    → run es (start (initialize c name)) ≡ some q
    → (describe_account id q ≡ total (describes_asked id) es)
      × (reader_account id q ≡ total (readers_asked id) es)
run-account id es c name q e =
    let a =
      Yields-eq (IsTotal id es (start (initialize c name))) _ e
        (run-IsTotal id es (start (initialize c name))) in
    let b = start-account id c name in (omega (arith, a.0, b.0), omega (arith, a.1, b.1))
