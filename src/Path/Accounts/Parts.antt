-- ===== src/Path/Accounts/Parts.antt =====
-- The accounts of the requests through the parts that the handlers share.
use plux_mtx.Base.{ℕ, ◌+◌, ◌≡◌, Bool, true, false, Option, List, [], ◌∷◌, arith, Yields, ◌==◌}
use plux_mtx.Path.State.{
  CorePath, Effect, Desc, Err, AddReaderReq, emit, path_not_ready, timed_out, describe_err,
}
use plux_mtx.Path.Ready.{
  set_not_ready, close_recorder, close_stream, set_ready, set_ready_hook, start_recording,
  add_reader_post, add_reader_post_each, consume_on_hold_requests, describe_stream_res,
}
use plux_mtx.Path.Handlers.{time_out_requests}
use plux_mtx.Path.Ledger.{readers_held, describe_account, reader_account}
use plux_mtx.Path.Exact.{
  describe_out, close_readers_lem, describes_answered-describe_out, readers_answered-describe_out,
  describes_answered-refuse_out, readers_answered-refuse_out, describes_answered-closed_out,
  readers_answered-closed_out,
}
use plux_mtx.Path.Invariant.Timers.{released, time_out_requests_lem}
use plux_mtx.Path.Invariant.Sources.{consume_lem}

-- From `p` to `q` the accounts of the request `id` grow by `d` and `r`, while the loop runs.
pub record Adds (id d r : ℕ) (p q : CorePath) : Type 0 where
  pub describes : describe_account id q ≡ describe_account id p + d
  pub readers : reader_account id q ≡ reader_account id p + r
  pub looping : q.done ≡ false

pub set_not_ready-Adds :
    (id : ℕ) (p : CorePath) → p.done ≡ false → Yields (Adds id 0 0 p) (set_not_ready p)
unfolding set_not_ready close_recorder close_stream describe_account reader_account
set_not_ready-Adds id p h = rw (close_readers_lem p.readers (emit path_not_ready p)) (
    ground (
      arith,
      describes_answered-closed_out id p.readers (path_not_ready ∷ p.out),
      readers_answered-closed_out id p.readers (path_not_ready ∷ p.out),
    ))

pub set_ready-Adds :
    (id : ℕ) (desc : Desc) (g f : Bool) (now : ℕ) (p : CorePath)
    → p.done ≡ false
    → Yields (λ (r : CorePath × Option Err). Adds id 0 0 p r.0) (set_ready desc g f now p)
unfolding set_ready set_ready_hook start_recording describe_account reader_account
set_ready-Adds id desc g f now p h = ground arith

pub time_out_requests-Adds :
    (id : ℕ) (p : CorePath) → p.done ≡ false → Adds id 0 0 p (time_out_requests p)
unfolding describe_account reader_account
time_out_requests-Adds id p h = rw (time_out_requests_lem p) (
    ground (
      arith,
      readers_answered-refuse_out id timed_out p.reader_add_requests_on_hold
          (describe_out (describe_err timed_out) p.describe_requests_on_hold p.out),
      describes_answered-refuse_out id timed_out p.reader_add_requests_on_hold
          (describe_out (describe_err timed_out) p.describe_requests_on_hold p.out),
      describes_answered-describe_out id (describe_err timed_out) p.describe_requests_on_hold p.out,
      readers_answered-describe_out id (describe_err timed_out) p.describe_requests_on_hold p.out,
    ))

abbrev pub one_if : Bool → ℕ
one_if true = 1
one_if false = 0

pub add_reader_post-Adds :
    (id : ℕ) (req : AddReaderReq) (p : CorePath)
    → p.done ≡ false
    → Adds id 0 (one_if (req.id == id)) p (add_reader_post req p)
unfolding add_reader_post describe_account reader_account
add_reader_post-Adds id req p h = ground arith

pub add_reader_post_each-Adds :
    (id : ℕ) (reqs : List AddReaderReq) (p : CorePath)
    → p.done ≡ false
    → Adds id 0 (readers_held id reqs) p (add_reader_post_each reqs p)
unfolding add_reader_post_each readers_held
add_reader_post_each-Adds id [] p h = record {
  describes = omega arith;
  readers = omega arith;
  looping = h;
}
add_reader_post_each-Adds id (r ∷ reqs) p h =
    let a = add_reader_post-Adds id r p h in
    let b = add_reader_post_each-Adds id reqs (add_reader_post r p) a.looping in
    record {
      describes = omega (arith, a.describes, b.describes);
      readers = ground (arith, a.readers, b.readers);
      looping = b.looping;
    }

pub consume-Adds :
    (id : ℕ) (p : CorePath) → p.done ≡ false → Adds id 0 0 p (consume_on_hold_requests p)
unfolding describe_account reader_account
consume-Adds id p h =
    let es : List Effect =
      describe_out (describe_stream_res p.stream) p.describe_requests_on_hold p.out in
    let a = add_reader_post_each-Adds id p.reader_add_requests_on_hold (released p es) h in
    rw (consume_lem p) (record {
      describes = ground (
        arith,
        a.describes,
        describes_answered-describe_out id (describe_stream_res p.stream)
            p.describe_requests_on_hold p.out,
      );
      readers = ground (
        arith,
        a.readers,
        readers_answered-describe_out id (describe_stream_res p.stream) p.describe_requests_on_hold
            p.out,
      );
      looping = a.looping;
    })
