-- ===== src/Admin.antt =====
-- libsplinter/src/admin: the admin service, which agrees with its peers on new circuits.
pub mod Proto
pub mod Messages
pub mod Conversions
pub mod OpenProposals
pub mod OpenMap
pub mod Validation
pub mod Circuits
pub mod Approval
pub mod Shared
pub mod Peering
pub mod Allowed
pub mod Proposals
pub mod Ready
pub mod Update
pub mod Events
pub mod Mailbox
pub mod MailboxPages
pub mod MailboxEvents
pub mod Commit
pub mod UpdateLoops
pub mod Committed
pub mod Informed
pub mod Settled
pub mod Waiting
pub mod ReadyHistory
pub mod ReadyCauses
pub mod Signatures
pub mod Tests
pub mod ReadyTests
pub mod Untouched
pub mod Undecided
pub mod Accepted
pub mod CommitTests
pub mod MailboxTests
pub mod Restart
pub mod Reloaded
pub mod Restarted
pub mod RestartTests
pub mod Named
