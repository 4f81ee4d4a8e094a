-- ===== src/Admin/MailboxPages.antt =====
-- The pages of the iterator of libsplinter/src/admin/service/mailbox.rs.
use mathlib.Core.Path.{subst}
use splinter.Prelude.{
  ℕ, zero, suc, ◌<◌, ◌≤◌, ◌≡◌, refl, sym, ap, ◌∙◌, Bool, true, false, ◌&&◌, none, some, List, [],
  ◌∷◌, ◌++◌, ltb, leb, arith, Bool-cases, Option-cases, inl, inr, keep, map, length,
}
use splinter.Storage.Sets.{
  Bound, included, excluded, in_range, is_bad_range, range_iter, take_up_to, last_item,
}
use splinter.Storage.Ascending.{IsAscending}
use splinter.Storage.Pages.{take-rest, rest_after, in_range-rest_after}
use splinter.Admin.Events.{AdminServiceEvent}
use splinter.Admin.Mailbox.{
  EventEntry, Mailbox, MailboxIter, timestamp_of, iter_cache_size, with_cache, new_iter,
  reload_cache, next, pop, collect_events, collect_next, then_all, mailbox_iter, next_start,
}

-- the entries of a range
abbrev pub entries_in : Bound → ℕ → Mailbox → List EventEntry
entries_in start end m =
    in_range timestamp_of (record { start = start; end = excluded end }) m.items

-- what the iterator has still to read
abbrev pub pending : MailboxIter → List EventEntry
pending it = it.cache ++ entries_in (excluded it.start_search) it.end_search it.source

-- The iterator holds a page of the entries to read, if there are any.
pub record IsLoaded (source : Mailbox) (entries : List EventEntry) (it : MailboxIter) : Type 0 where
  pub same_source : it.source ≡ source
  pub same_entries : pending it ≡ entries
  pub loaded : it.cache ≡ [] → entries ≡ []

last_none : (ys : List EventEntry) → last_item ys ≡ none → ys ≡ []
unfolding last_item
last_none [] h = refl
last_none (x ∷ []) h = cc
last_none (x ∷ y ∷ ys) h = cc (last_none (y ∷ ys) h)

page_cons : (n : ℕ) (xs : List EventEntry) → take_up_to (suc n) xs ≡ [] → xs ≡ []
unfolding take_up_to
page_cons n [] h = refl
page_cons n (x ∷ xs) h = cc

nothing_between :
    (a b : ℕ) (xs : List EventEntry)
    → ltb a b ≡ false
    → in_range timestamp_of (record { start = excluded a; end = excluded b }) xs ≡ []
unfolding in_range keep
nothing_between a b [] h = refl
nothing_between a b (x ∷ xs) h = let rest = nothing_between a b xs h in ground arith

rest_of_nil : rest_after {A = EventEntry} iter_cache_size [] ≡ []
unfolding rest_after
rest_of_nil = refl

with_cache-IsLoaded :
    (m : Mailbox) (start : Bound) (end : ℕ)
    → IsAscending timestamp_of m.items
    → is_bad_range (record { start = start; end = excluded end }) ≡ false
    → (it : MailboxIter) × (with_cache m end
          (range_iter timestamp_of (record { start = start; end = excluded end }) m)
        ≡ some it)
      × IsLoaded m (entries_in start end m) it
unfolding range_iter
with_cache-IsLoaded m start end s good =
    let entries = entries_in start end m in
    let page = take_up_to iter_cache_size entries in
    let left : entries_in (excluded (next_start end (last_item page))) end m
        ≡ rest_after iter_cache_size entries =
      elim (Option-cases (last_item page)) [
        | inl e ↦
            (let nothing : ltb end end ≡ false = ground arith in
              let read = page_cons 99 entries (last_none page e) in
              rw e (
                nothing_between end end m.items nothing
                ∙ sym (ap (rest_after iter_cache_size) read ∙ rest_of_nil)))
        | inr (x, e) ↦
            rw e
              (in_range-rest_after timestamp_of iter_cache_size start (excluded end) m.items x s e)
      ] in
    (
      _,
      rw good refl,
      record {
        same_source = refl;
        same_entries = ap (λ ys. page ++ ys) left ∙ take-rest iter_cache_size entries;
        loaded = λ e. page_cons 99 entries e;
      },
    )

-- what `next` does once its page is loaded
next-IsLoaded :
    (it : MailboxIter)
    → IsAscending timestamp_of it.source.items
    → (it' : MailboxIter) × (next it ≡ some (pop it' it'.cache))
      × IsLoaded it.source (pending it) it'
unfolding next reload_cache
next-IsLoaded it s = go it.cache refl
  where
    go :
        (es : List EventEntry)
        → it.cache ≡ es
        → (it' : MailboxIter) × (next it ≡ some (pop it' it'.cache))
          × IsLoaded it.source (pending it) it'
    go [] e = elim (Bool-cases (ltb it.start_search it.end_search)) [
      | inl f ↦
          (let good : leb it.end_search it.start_search ≡ false = ground (arith, f) in
            let (it', g, l) =
              with_cache-IsLoaded it.source (excluded it.start_search) it.end_search s good in
            (
              it',
              rw (e, f, g) refl,
              subst (λ es. IsLoaded it.source es it')
                  (sym (
                    ap (λ es. es ++ entries_in (excluded it.start_search) it.end_search it.source)
                      e))
                  l,
            ))
      | inr f ↦ (
        it,
        rw (e, f) refl,
        record {
          same_source = refl;
          same_entries = refl;
          loaded = λ h.
              ap (λ es. es ++ entries_in (excluded it.start_search) it.end_search it.source) e
              ∙ nothing_between it.start_search it.end_search it.source.items f;
        },
      )
    ]
    go (x ∷ es) e =
        (it, rw e refl, record { same_source = refl; same_entries = refl; loaded = λ h. cc (h, e) })

abbrev pub read_of : EventEntry → ℕ × AdminServiceEvent
read_of e = (e.timestamp, e.event)

-- `n` steps read the iterator to its end
abbrev pub Reads : ℕ → Type 0
Reads n =
    (it : MailboxIter)
    → IsAscending timestamp_of it.source.items
    → length (pending it) < n
    → collect_events n it ≡ some (map read_of (pending it))

-- one more step, from the page that it loads
read_page :
    (n : ℕ) (it it' : MailboxIter) (es : List EventEntry)
    → Reads n
    → IsAscending timestamp_of it.source.items
    → length (pending it) < suc n
    → it'.cache ≡ es
    → next it ≡ some (pop it' it'.cache)
    → IsLoaded it.source (pending it) it'
    → collect_events (suc n) it ≡ some (map read_of (pending it))
unfolding collect_events
read_page n it it' [] reads s h c e l =
    ap (collect_next (collect_events n)) (e ∙ ap (λ cs. some (pop it' cs)) c)
    ∙ sym (ap (λ es. some (map read_of es)) (l.loaded c))
read_page n it it' (x ∷ es) reads s h c e l =
    let after : MailboxIter = record it' { cache = es } in
    let same : x ∷ pending after ≡ pending it =
      sym (ap (λ cs. cs ++ entries_in (excluded it'.start_search) it'.end_search it'.source) c)
      ∙ l.same_entries in
    let rest =
      reads after (subst (λ (m : Mailbox). IsAscending timestamp_of m.items) (sym l.same_source) s)
        (omega (arith, h, ap (λ (xs : List EventEntry). length xs) same)) in
    ap (collect_next (collect_events n)) (e ∙ ap (λ cs. some (pop it' cs)) c)
    ∙ ap (then_all (read_of x)) rest
    ∙ ap (λ xs. some (map read_of xs)) same

-- The iterator yields what it has still to read, and then ends.
pub collect_events-pending : (n : ℕ) → Reads n
collect_events-pending zero it s h = absurd (omega (arith, h))
collect_events-pending (suc n) it s h =
    let (it', e, l) = next-IsLoaded it s in
    read_page n it it' it'.cache (collect_events-pending n) s h refl e l

length-keep : (p : EventEntry → Bool) (xs : List EventEntry) → length (keep p xs) ≤ length xs
unfolding keep
length-keep p [] = omega arith
length-keep p (x ∷ xs) = let rest = length-keep p xs in ground arith

keep_before :
    (now : ℕ) (xs : List EventEntry)
    → keep (λ e. leb 0 e.timestamp && ltb e.timestamp now) xs ≡ keep (λ e. ltb e.timestamp now) xs
unfolding keep
keep_before now [] = refl
keep_before now (x ∷ xs) =
    let rest = keep_before now xs in
    let least : leb 0 x.timestamp ≡ true = ground arith in rw (least, rest) refl

-- An iterator of the whole mailbox reads the entries before the time in order, and ends.
pub mailbox_iter-collect_events :
    (now fuel : ℕ) (m : Mailbox)
    → IsAscending timestamp_of m.items
    → length m.items < fuel
    → (it : MailboxIter) × (mailbox_iter now m ≡ some it)
      × (collect_events fuel it ≡ some (map read_of (keep (λ e. ltb e.timestamp now) m.items)))
unfolding new_iter in_range
mailbox_iter-collect_events now fuel m s h =
    let good : ltb now 0 ≡ false = ground arith in
    let (it, e, l) = with_cache-IsLoaded m (included 0) now s good in
    let all : entries_in (included 0) now m ≡ keep (λ e. ltb e.timestamp now) m.items =
      keep_before now m.items in
    (
      it,
      e,
      collect_events-pending fuel it
            (subst (λ (x : Mailbox). IsAscending timestamp_of x.items) (sym l.same_source) s)
            (omega (
              arith,
              h,
              ap (λ (xs : List EventEntry). length xs) (l.same_entries ∙ all),
              length-keep (λ e. ltb e.timestamp now) m.items,
            ))
          ∙ ap (λ xs. some (map read_of xs)) (l.same_entries ∙ all),
    )
