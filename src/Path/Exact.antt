-- ===== src/Path/Exact.antt =====
-- What the loops of a path change, as equations: the readers that are closed, and the responses.
use plux_mtx.Base.{
  ℕ, ◌+◌, ◌≤◌, ◌≡◌, refl, Bool, true, false, some, none, List, [], ◌∷◌, arith, count, delete,
  count-delete, is_some,
}
use plux_mtx.Path.State.{
  CorePath, Effect, DescribeReq, AddReaderReq, DescribeRes, Err, emit, describe_res, add_reader_res,
  add_err, reader_close, path_not_ready, hook_not_ready, recorder_close, stream_close,
}
use plux_mtx.Path.Ready.{close_readers, set_not_ready, describe_each, add_reader_err_each}
use plux_mtx.Path.Ledger.{
  describes_answered, readers_answered, describes_held, readers_held, SameAnswers,
}

pub describe_out : DescribeRes → List DescribeReq → List Effect → List Effect
describe_out res [] es = es
describe_out res (r ∷ rs) es = describe_out res rs (describe_res r.id res ∷ es)

pub describe_each_lem :
    (res : DescribeRes) (rs : List DescribeReq) (p : CorePath)
    → describe_each res rs p ≡ record p { out = describe_out res rs p.out }
unfolding describe_each describe_out
describe_each_lem res [] p = refl
describe_each_lem res (r ∷ rs) p = describe_each_lem res rs (emit (describe_res r.id res) p)

pub describes_answered-describe_out :
    (id : ℕ) (res : DescribeRes) (rs : List DescribeReq) (es : List Effect)
    → describes_answered id (describe_out res rs es)
      ≡ describes_answered id es + describes_held id rs
unfolding describe_out describes_answered describes_held
describes_answered-describe_out id res [] es = omega arith
describes_answered-describe_out id res (r ∷ rs) es =
    ground (arith, describes_answered-describe_out id res rs (describe_res r.id res ∷ es))

pub readers_answered-describe_out :
    (id : ℕ) (res : DescribeRes) (rs : List DescribeReq) (es : List Effect)
    → readers_answered id (describe_out res rs es) ≡ readers_answered id es
unfolding describe_out readers_answered
readers_answered-describe_out id res [] es = refl
readers_answered-describe_out id res (r ∷ rs) es =
    ground (arith, readers_answered-describe_out id res rs (describe_res r.id res ∷ es))

pub refuse_out : Err → List AddReaderReq → List Effect → List Effect
refuse_out e [] es = es
refuse_out e (r ∷ rs) es = refuse_out e rs (add_reader_res r.id (add_err e) ∷ es)

pub add_reader_err_each_lem :
    (e : Err) (rs : List AddReaderReq) (p : CorePath)
    → add_reader_err_each e rs p ≡ record p { out = refuse_out e rs p.out }
unfolding add_reader_err_each refuse_out
add_reader_err_each_lem e [] p = refl
add_reader_err_each_lem e (r ∷ rs) p =
    add_reader_err_each_lem e rs (emit (add_reader_res r.id (add_err e)) p)

pub readers_answered-refuse_out :
    (id : ℕ) (e : Err) (rs : List AddReaderReq) (es : List Effect)
    → readers_answered id (refuse_out e rs es) ≡ readers_answered id es + readers_held id rs
unfolding refuse_out readers_answered readers_held
readers_answered-refuse_out id e [] es = omega arith
readers_answered-refuse_out id e (r ∷ rs) es =
    ground (arith, readers_answered-refuse_out id e rs (add_reader_res r.id (add_err e) ∷ es))

pub describes_answered-refuse_out :
    (id : ℕ) (e : Err) (rs : List AddReaderReq) (es : List Effect)
    → describes_answered id (refuse_out e rs es) ≡ describes_answered id es
unfolding refuse_out describes_answered
describes_answered-refuse_out id e [] es = refl
describes_answered-refuse_out id e (r ∷ rs) es =
    ground (arith, describes_answered-refuse_out id e rs (add_reader_res r.id (add_err e) ∷ es))

pub delete_all : List ℕ → List ℕ → List ℕ
delete_all [] xs = xs
delete_all (r ∷ rs) xs = delete_all rs (delete r xs)

pub closed_out : List ℕ → List Effect → List Effect
closed_out [] es = es
closed_out (r ∷ rs) es = closed_out rs (reader_close r ∷ es)

pub close_readers_lem :
    (rs : List ℕ) (p : CorePath)
    → close_readers rs p ≡ record p { readers = delete_all rs p.readers; out = closed_out rs p.out }
unfolding close_readers delete_all closed_out
close_readers_lem [] p = refl
close_readers_lem (r ∷ rs) p =
    close_readers_lem rs (emit (reader_close r) (record p { readers = delete r p.readers }))

no_counts : (xs : List ℕ) → ((a : ℕ) → count a xs ≤ 0) → xs ≡ []
unfolding count
no_counts [] h = refl
no_counts (x ∷ xs) h = ground (arith, h x)

delete_all-nil : (rs xs : List ℕ) → ((a : ℕ) → count a xs ≤ count a rs) → delete_all rs xs ≡ []
unfolding delete_all
delete_all-nil [] xs h = no_counts xs (unfold count in h)
delete_all-nil (r ∷ rs) xs h =
    delete_all-nil rs (delete r xs) (unfold count in λ a. ground (arith, h a, count-delete r a xs))

pub describes_answered-closed_out :
    (id : ℕ) (rs : List ℕ) (es : List Effect)
    → describes_answered id (closed_out rs es) ≡ describes_answered id es
unfolding closed_out describes_answered
describes_answered-closed_out id [] es = refl
describes_answered-closed_out id (r ∷ rs) es =
    describes_answered-closed_out id rs (reader_close r ∷ es)

pub readers_answered-closed_out :
    (id : ℕ) (rs : List ℕ) (es : List Effect)
    → readers_answered id (closed_out rs es) ≡ readers_answered id es
unfolding closed_out readers_answered
readers_answered-closed_out id [] es = refl
readers_answered-closed_out id (r ∷ rs) es = readers_answered-closed_out id rs (reader_close r ∷ es)

-- The path without its stream, its recorder and its readers.
abbrev pub cleared : CorePath → List Effect → CorePath
cleared p es = record p { readers = []; recorder = none; stream = none; out = es }

recorder_out : Bool → List Effect → List Effect
recorder_out true es = recorder_close ∷ es
recorder_out false es = es

stream_out : Bool → List Effect → List Effect
stream_out true es = stream_close ∷ es
stream_out false es = es

-- What `setNotReady` sends.
pub not_ready_out : CorePath → List Effect
unfolding recorder_out stream_out closed_out
not_ready_out p = stream_out (is_some p.stream) (
    recorder_out (is_some p.recorder)
      (hook_not_ready ∷ closed_out p.readers (path_not_ready ∷ p.out)))

pub set_not_ready_lem :
    (p : CorePath)
    → p.on_not_ready_hook ≡ true
    → set_not_ready p ≡ some (cleared p (not_ready_out p))
unfolding set_not_ready not_ready_out
set_not_ready_lem p h =
    rw (close_readers_lem p.readers (emit path_not_ready p))
      (rw (delete_all-nil p.readers p.readers (λ a. omega arith)) (ground arith))

pub not_ready_out-SameAnswers : (p : CorePath) → SameAnswers (not_ready_out p) p.out
unfolding not_ready_out describes_answered readers_answered
not_ready_out-SameAnswers p = record {
  describes =
      λ id. ground (arith, describes_answered-closed_out id p.readers (path_not_ready ∷ p.out));
  readers = λ id. ground (arith, readers_answered-closed_out id p.readers (path_not_ready ∷ p.out));
}
