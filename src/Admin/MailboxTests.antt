-- ===== src/Admin/MailboxTests.antt =====
-- The mailbox at concrete events.
use splinter.Prelude.{ℕ, ◌≡◌, refl, some, [], ◌∷◌, ltb, keep, map, string_eq, arith}
use splinter.Storage.Sets.{DurableBTreeSet, add, find_item, new_boxed_with_bound}
use splinter.Storage.Bounded.{adding, removing, IsStored, perform_next, perform_next-IsStored}
use splinter.Storage.Recent.{add_next, last_of, add_next-last_of, add_present}
use splinter.Admin.Events.{proposal_submitted, circuit_ready}
use splinter.Admin.Mailbox.{EventEntry, Mailbox, mailbox_add, get_events_since, of_type}
use splinter.Admin.MailboxPages.{read_of}
use splinter.Admin.MailboxEvents.{mail_next, get_events_since-last_of, mailbox_add-same_time}
use splinter.Admin.CommitTests.{sample_message}

abbrev same : ℕ → ℕ
same n = n

perform_next-IsStored_example :
    (s' : DurableBTreeSet ℕ) × (perform_next same
        (adding 3 ∷ adding 1 ∷ removing 3 ∷ [])
        (some (record { items = 5 ∷ 7 ∷ []; bound = 2 }))
      ≡ some s')
    × IsStored same 2 s'
perform_next-IsStored_example =
    perform_next-IsStored same 2 (adding 3 ∷ adding 1 ∷ removing 3 ∷ [])
      (record { items = 5 ∷ 7 ∷ []; bound = 2 }) (omega arith)
      (record {
        ascending = (((omega arith), tt), (tt, tt));
        bounded = (omega arith);
        same_bound = refl;
      })

add_next-last_of_example :
    add_next same (1 ∷ 2 ∷ 3 ∷ []) (some (new_boxed_with_bound ℕ 2))
    ≡ some (record { items = last_of 2 (1 ∷ 2 ∷ 3 ∷ []); bound = 2 })
add_next-last_of_example =
    add_next-last_of same 2 (1 ∷ 2 ∷ 3 ∷ []) (omega arith)
      (((omega arith), ((omega arith), tt)), (((omega arith), tt), (tt, tt)))

add_present_example :
    add same 7 (record { items = 5 ∷ 7 ∷ []; bound = 2 })
    ≡ some (record { items = 7 ∷ []; bound = 2 })
unfolding find_item
add_present_example = add_present same 7 5 7 (7 ∷ []) (((omega arith), tt), (tt, tt)) refl

abbrev sample_entry : ℕ → EventEntry
sample_entry t = record { timestamp = t; event = proposal_submitted sample_message }

get_events_since-last_of_example :
    (m : Mailbox) × (mail_next
        (sample_entry 1 ∷ sample_entry 2 ∷ sample_entry 5 ∷ [])
        (some (new_boxed_with_bound EventEntry 2))
      ≡ some m)
    × (get_events_since 3 4 2 "gameroom" m
        ≡ some (
            keep (of_type "gameroom") (
              map read_of (
                keep
                  (λ e. ltb e.timestamp 4)
                  (last_of 2 (sample_entry 1 ∷ sample_entry 2 ∷ sample_entry 5 ∷ []))))))
get_events_since-last_of_example =
    get_events_since-last_of 2 3 4 2 "gameroom"
      (sample_entry 1 ∷ sample_entry 2 ∷ sample_entry 5 ∷ []) (omega arith) (omega arith)
      (((omega arith), ((omega arith), tt)), (((omega arith), tt), (tt, tt)))

abbrev sample_mailbox : Mailbox
sample_mailbox = record { items = sample_entry 4 ∷ []; bound = 2 }

mailbox_add-same_time_example :
    mailbox_add 4 (circuit_ready sample_message) sample_mailbox
    ≡ some ((4, circuit_ready sample_message), sample_mailbox)
unfolding find_item
mailbox_add-same_time_example =
    mailbox_add-same_time 4 (circuit_ready sample_message) sample_mailbox (sample_entry 4) (tt, tt)
      (omega arith) refl
