-- ===== src/Admin/Mailbox.antt =====
-- libsplinter/src/admin/service/mailbox.rs over the ordered set of the storage, and
-- `get_events_since` of libsplinter/src/admin/service/shared.rs. Times are native natural numbers since
-- the epoch, and the clock is a parameter. `none` is a panic of the set.
use splinter.Prelude.{
  ℕ, zero, suc, String, Bool, true, false, ◌&&◌, Option, none, some, List, [], ◌∷◌, ◌==◌, string_eq,
  if◌then◌else◌, ltb, keep,
}
use splinter.Storage.Sets.{
  DurableBTreeSet, included, excluded, add, range_iter, take_up_to, last_item,
}
use splinter.Admin.Events.{AdminServiceEvent, management_type_of}

-- ordered by the time alone
pub record EventEntry : Type 0 where
  pub timestamp : ℕ
  pub event : AdminServiceEvent

abbrev pub Mailbox : Type 0
Mailbox = DurableBTreeSet EventEntry

abbrev pub timestamp_of : EventEntry → ℕ
timestamp_of e = e.timestamp

abbrev pub stamped :
    ℕ → AdminServiceEvent → Option Mailbox → Option ((ℕ × AdminServiceEvent) × Mailbox)
stamped now event none = none
stamped now event (some m) = some ((now, event), m)

unfoldable pub mailbox_add :
    ℕ → AdminServiceEvent → Mailbox → Option ((ℕ × AdminServiceEvent) × Mailbox)
mailbox_add now event m =
    stamped now event (add timestamp_of (record { timestamp = now; event = event }) m)

abbrev pub iter_cache_size : ℕ
iter_cache_size = 100

-- `source` is the mailbox as the iterator finds it; no event is added between its reads.
pub record MailboxIter : Type 0 where
  pub source : Mailbox
  pub start_search : ℕ
  pub end_search : ℕ
  pub cache : List EventEntry

-- where the next search starts
abbrev pub next_start : ℕ → Option EventEntry → ℕ
next_start end_search none = end_search
next_start end_search (some e) = e.timestamp

-- the iterator with a cache from a range
abbrev pub with_cache : Mailbox → ℕ → Option (List EventEntry) → Option MailboxIter
with_cache source end_search none = none
with_cache source end_search (some found) =
    let cache = take_up_to iter_cache_size found in
    some (record {
      source = source;
      start_search = next_start end_search (last_item cache);
      end_search = end_search;
      cache = cache;
    })

unfoldable pub new_iter : Mailbox → ℕ → ℕ → Option MailboxIter
new_iter source start_search end_search = with_cache source end_search (
    range_iter timestamp_of (record { start = included start_search; end = excluded end_search })
      source)

unfoldable pub reload_cache : MailboxIter → Option MailboxIter
reload_cache it = with_cache it.source it.end_search (
    range_iter timestamp_of
      (record { start = excluded it.start_search; end = excluded it.end_search }) it.source)

abbrev pub is_empty : List EventEntry → Bool
is_empty [] = true
is_empty (e ∷ es) = false

-- `pop_front`
abbrev pub pop : MailboxIter → List EventEntry → Option (ℕ × AdminServiceEvent) × MailboxIter
pop it [] = (none, it)
pop it (e ∷ es) = (some (e.timestamp, e.event), record it { cache = es })

abbrev pub popped : Option MailboxIter → Option (Option (ℕ × AdminServiceEvent) × MailboxIter)
popped none = none
popped (some it) = some (pop it it.cache)

unfoldable pub next : MailboxIter → Option (Option (ℕ × AdminServiceEvent) × MailboxIter)
next it =
    popped
      (if is_empty it.cache && ltb it.start_search it.end_search then reload_cache it else some it)

-- `iter`, from the epoch to now
abbrev pub mailbox_iter : ℕ → Mailbox → Option MailboxIter
mailbox_iter now m = new_iter m 0 now

abbrev pub then_all :
    ℕ × AdminServiceEvent
    → Option (List (ℕ × AdminServiceEvent))
    → Option (List (ℕ × AdminServiceEvent))
then_all x none = none
then_all x (some xs) = some (x ∷ xs)

-- what the rest of the iterator yields after a call of `next`
abbrev pub collect_next :
    (MailboxIter → Option (List (ℕ × AdminServiceEvent)))
    → Option (Option (ℕ × AdminServiceEvent) × MailboxIter)
    → Option (List (ℕ × AdminServiceEvent))
collect_next rest none = none
collect_next rest (some (none, it)) = some []
collect_next rest (some (some x, it)) = then_all x (rest it)

-- `collect` of the iterator, with fuel; `none` where the fuel ends
unfoldable pub collect_events : ℕ → MailboxIter → Option (List (ℕ × AdminServiceEvent))
collect_events zero it = none
collect_events (suc n) it = collect_next (collect_events n) (next it)

-- the events of a type, whose time is not compared with `since`
abbrev pub of_type : String → ℕ × AdminServiceEvent → Bool
of_type management_type e = management_type_of e.1 == management_type

abbrev pub events_of_type :
    String → Option (List (ℕ × AdminServiceEvent)) → Option (List (ℕ × AdminServiceEvent))
events_of_type management_type none = none
events_of_type management_type (some events) = some (keep (of_type management_type) events)

abbrev pub collect_all : ℕ → Option MailboxIter → Option (List (ℕ × AdminServiceEvent))
collect_all fuel none = none
collect_all fuel (some it) = collect_events fuel it

unfoldable pub get_events_since :
    ℕ → ℕ → ℕ → String → Mailbox → Option (List (ℕ × AdminServiceEvent))
get_events_since fuel now since management_type m =
    events_of_type management_type (collect_all fuel (mailbox_iter now m))
