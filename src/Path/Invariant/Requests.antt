-- ===== src/Path/Invariant/Requests.antt =====
-- Describing a path, and readers that come and go, keep the invariant.
use plux_mtx.Base.{
  ℕ, ◌≤◌, ◌≡◌, List, [], ◌∷◌, arith, Ensures, contains, count, delete, length, length-delete-le,
  count-delete, contains-count, is_empty, is_some, true, if◌then◌else◌, sym, ap, ◌∙◌, ◌&&◌,
  Bool-cases, inl, inr,
}
use plux_mtx.Conf.Flags.{source_tests}
use plux_mtx.Path.State.{CorePath, Effect, emit, closed_res, DescribeReq, AddReaderReq}
use plux_mtx.Path.OnDemand.{start_handler, on_demand_static_source_start, on_demand_publisher_start}
use plux_mtx.Path.Ready.{readers_full, add_reader_post}
use plux_mtx.Path.Handlers.{
  ensure_static_source, ensure_publisher, describe_not_ready, do_describe, reader_not_ready,
  do_add_reader, no_readers_left, do_remove_reader,
}
use plux_mtx.Path.Invariant.{Inv, IsCapped}
use plux_mtx.Base.Int.{ℤ, pos, negsuc}
use plux_mtx.Base.{zero, suc, false}

pub do_describe-Inv : (req : DescribeReq) (p : CorePath) → Inv p → Ensures Inv (do_describe req p)
unfolding do_describe describe_not_ready ensure_static_source ensure_publisher
    on_demand_static_source_start start_handler on_demand_publisher_start
do_describe-Inv req p v = ground (arith, source_tests p.conf)

-- What a path sends is no part of the invariant.
pub out-Inv : (es : List Effect) (p : CorePath) → Inv p → Inv (record p { out = es })
out-Inv es p v = record {
  valid = v.valid;
  sourced = v.sourced;
  demanded = v.demanded;
  serving = record {
    not_done = v.serving.not_done;
    hook_set = v.serving.hook_set;
    no_readers = v.serving.no_readers;
    nothing_held = v.serving.nothing_held;
    recording = v.serving.recording;
    capped = v.serving.capped;
    distinct = v.serving.distinct;
    closing_unread = v.serving.closing_unread;
    closing_unpublished = v.serving.closing_unpublished;
    held_waiting = v.serving.held_waiting;
    held_demanded = v.serving.held_demanded;
  };
}

emit-Inv : (e : Effect) (p : CorePath) → Inv p → Inv (emit e p)
emit-Inv e p = out-Inv (e ∷ p.out) p

IsCapped-suc : (m : ℤ) (n : ℕ) → readers_full m n ≡ false → IsCapped m n → IsCapped m (suc n)
unfolding readers_full
IsCapped-suc (pos zero) n h c = tt
IsCapped-suc (pos (suc m)) n h c = ground arith
IsCapped-suc (negsuc m) n h c = ground arith

count-cons-le :
    (a r : ℕ) (rs : List ℕ) → contains r rs ≡ false → count a rs ≤ 1 → count a (r ∷ rs) ≤ 1
unfolding count
count-cons-le a r rs h d = ground (arith, contains-count r rs)

-- A reader comes to a path that is ready.
pub add_reader_post-Inv :
    (req : AddReaderReq) (p : CorePath)
    → is_some p.stream ≡ true
    → Inv p
    → Inv (add_reader_post req p)
unfolding add_reader_post
add_reader_post-Inv req p s v = ground (
  arith,
  source_tests p.conf,
  IsCapped-suc p.conf.max_readers (length p.readers),
  λ (a : ℕ). count-cons-le a req.author p.readers,
)

pub do_add_reader-Inv :
    (req : AddReaderReq) (p : CorePath) → Inv p → Ensures Inv (do_add_reader req p)
unfolding do_add_reader reader_not_ready ensure_static_source ensure_publisher
    on_demand_static_source_start start_handler on_demand_publisher_start
do_add_reader-Inv req p v = ground (arith, source_tests p.conf, add_reader_post-Inv req p)

IsCapped-mono : (m : ℤ) (k n : ℕ) → k ≤ n → IsCapped m n → IsCapped m k
IsCapped-mono (pos zero) k n h c = tt
IsCapped-mono (pos (suc m)) k n h c = omega arith
IsCapped-mono (negsuc m) k n h c = omega arith

count-delete-le : (a r : ℕ) (rs : List ℕ) → count a rs ≤ 1 → count a (delete r rs) ≤ 1
count-delete-le a r rs d = ground (arith, count-delete r a rs)

delete-empty : (r : ℕ) (rs : List ℕ) → is_empty rs ≡ true → is_empty (delete r rs) ≡ true
unfolding delete
delete-empty r [] h = h
delete-empty r (x ∷ xs) h = cc

-- Other readers, as many as before in that there are some, or none.
other_readers-Inv :
    (p : CorePath) (rs : List ℕ)
    → Inv p
    → IsCapped p.conf.max_readers (length rs)
    → ((a : ℕ) → count a rs ≤ 1)
    → is_empty p.readers ≡ is_empty rs
    → Inv (record p { readers = rs })
other_readers-Inv p rs v c d h = record {
  valid = v.valid;
  sourced = v.sourced;
  demanded = v.demanded;
  serving = record {
    not_done = v.serving.not_done;
    hook_set = v.serving.hook_set;
    no_readers = λ k. sym h ∙ v.serving.no_readers k;
    nothing_held = v.serving.nothing_held;
    recording = v.serving.recording;
    capped = c;
    distinct = d;
    closing_unread = λ k. v.serving.closing_unread k ∙ ap (λ b. is_some p.stream && b) h;
    closing_unpublished = λ k. sym h ∙ v.serving.closing_unpublished k;
    held_waiting = v.serving.held_waiting;
    held_demanded = v.serving.held_demanded;
  };
}

-- The last reader leaves, or none was there.
no_readers-Inv : (p : CorePath) → Inv p → Inv (no_readers_left (record p { readers = [] }))
unfolding no_readers_left count
no_readers-Inv p v = ground (arith, source_tests p.conf)

-- Fewer readers, and the pending close if none is left.
fewer_readers-Inv :
    (p : CorePath) (rs : List ℕ)
    → Inv p
    → IsCapped p.conf.max_readers (length rs)
    → ((a : ℕ) → count a rs ≤ 1)
    → (is_empty p.readers ≡ true → is_empty rs ≡ true)
    → Inv (
        if is_empty rs
        then no_readers_left (record p { readers = rs })
        else record p { readers = rs })
fewer_readers-Inv p [] v c d h = no_readers-Inv p v
fewer_readers-Inv p (r ∷ rs) v c d h = elim (Bool-cases (is_empty p.readers)) [
  | inl e ↦ cc (h e)
  | inr e ↦ other_readers-Inv p (r ∷ rs) v c d e
]

pub do_remove_reader-Inv :
    (id author : ℕ) (p : CorePath) → Inv p → Inv (do_remove_reader id author p)
unfolding do_remove_reader
do_remove_reader-Inv id author p v = elim (Bool-cases (contains author p.readers)) [
  | inl e ↦ rw e (
      fewer_readers-Inv (emit (closed_res id) p) (delete author p.readers) (emit-Inv _ p v)
        (IsCapped-mono p.conf.max_readers _ _ (length-delete-le author p.readers) v.serving.capped)
        (λ a. count-delete-le a author p.readers (v.serving.distinct a))
        (delete-empty author p.readers))
  | inr e ↦ rw e (
      fewer_readers-Inv (emit (closed_res id) p) p.readers (emit-Inv _ p v) v.serving.capped
        v.serving.distinct (λ h. h))
]
