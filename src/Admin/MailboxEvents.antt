-- ===== src/Admin/MailboxEvents.antt =====
-- What subscribers read back of the mailbox of libsplinter/src/admin/service/mailbox.rs.
use splinter.Prelude.{
  ℕ, ◌<◌, ◌≡◌, refl, ap, ◌∙◌, String, Option, none, some, List, [], ◌∷◌, ltb, arith, keep, map,
  length,
}
use splinter.Storage.Sets.{add, find_item, new_boxed_with_bound}
use splinter.Storage.Ascending.{IsAscending, insert_present}
use splinter.Storage.Bounded.{add_free, with_items}
use splinter.Storage.Recent.{
  add_next, last_of, add_next-last_of, length-last_of, IsAscending-last_of,
}
use splinter.Admin.Events.{AdminServiceEvent}
use splinter.Admin.Mailbox.{
  EventEntry, Mailbox, timestamp_of, mailbox_add, stamped, get_events_since, of_type,
  events_of_type, collect_all,
}
use splinter.Admin.MailboxPages.{read_of, mailbox_iter-collect_events}

abbrev pub mailbox_of : Option ((ℕ × AdminServiceEvent) × Mailbox) → Option Mailbox
mailbox_of none = none
mailbox_of (some r) = some r.1

-- events that are added one after the other
abbrev pub mail_next : List EventEntry → Option Mailbox → Option Mailbox
mail_next [] o = o
mail_next (e ∷ es) none = none
mail_next (e ∷ es) (some m) = mail_next es (mailbox_of (mailbox_add e.timestamp e.event m))

mailbox_of-stamped :
    (now : ℕ) (event : AdminServiceEvent) (o : Option Mailbox)
    → mailbox_of (stamped now event o) ≡ o
mailbox_of-stamped now event none = refl
mailbox_of-stamped now event (some m) = refl

mail_next-add_next :
    (es : List EventEntry) (o : Option Mailbox) → mail_next es o ≡ add_next timestamp_of es o
unfolding mailbox_add
mail_next-add_next [] o = refl
mail_next-add_next (e ∷ es) none = refl
mail_next-add_next (e ∷ es) (some m) =
    ap (mail_next es) (mailbox_of-stamped e.timestamp e.event (add timestamp_of e m))
    ∙ mail_next-add_next es (add timestamp_of e m)

-- Of events that were added to a new mailbox of a bound that is not 0, at times that ascend, `get_events_since`
-- reads in their order those of its type before the present time among the last, as many as the bound;
-- fuel above the bound is enough, and the time that it is asked for does not matter.
pub get_events_since-last_of :
    (bound fuel now since : ℕ) (management_type : String) (es : List EventEntry)
    → 0 < bound
    → bound < fuel
    → IsAscending timestamp_of es
    → (m : Mailbox) × (mail_next es (some (new_boxed_with_bound EventEntry bound)) ≡ some m)
      × (get_events_since fuel now since management_type m
          ≡ some (
              keep
                (of_type management_type)
                (map read_of (keep (λ e. ltb e.timestamp now) (last_of bound es)))))
unfolding get_events_since
get_events_since-last_of bound fuel now since management_type es p f a =
    let m : Mailbox = with_items bound (last_of bound es) in
    let (it, e, read) =
      mailbox_iter-collect_events now fuel m (IsAscending-last_of timestamp_of bound es a)
        (omega (arith, f, length-last_of bound es)) in
    (
      m,
      mail_next-add_next es (some (new_boxed_with_bound EventEntry bound))
          ∙ add_next-last_of timestamp_of bound es p a,
      ap (events_of_type management_type) (ap (collect_all fuel) e ∙ read),
    )

-- An event at the time of one that is stored, in a mailbox that is not full, is reported as added, at that time, but the mailbox
-- stays what it was.
pub mailbox_add-same_time :
    (now : ℕ) (event : AdminServiceEvent) (m : Mailbox) (e : EventEntry)
    → IsAscending timestamp_of m.items
    → length m.items < m.bound
    → find_item timestamp_of now m.items ≡ some e
    → mailbox_add now event m ≡ some ((now, event), m)
unfolding mailbox_add
mailbox_add-same_time now event m e a h found =
    let x : EventEntry = record { timestamp = now; event = event } in
    ap (stamped now event) (
      add_free timestamp_of m.bound x m.items h
      ∙ ap (λ xs. some (with_items m.bound xs)) (insert_present timestamp_of x e m.items a found))
