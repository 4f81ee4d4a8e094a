-- ===== src/Admin/Approval.antt =====
-- When a circuit proposal of libsplinter/src/admin/service/shared.rs is accepted.
use text.Mathlib.TextEquality.{eq_iff}
use splinter.Prelude.{
  String, ◌≡◌, refl, ◌↔◌, ◌≢◌, Bool, true, false, ◌||◌, List, [], ◌∷◌, ◌++◌, arith, ◌==◌, string_eq,
  Bytes, some, any, Bool-ext, eq_self, if◌then◌else◌,
}
use splinter.Prelude.Exec.{ok}
use splinter.Prelude.Sets
use splinter.Prelude.Sets.{
  contains, from_list, set_eq, set_eq_iff, contains-remove, contains-from_list,
}
use splinter.Admin.Proto.{Vote, VoteRecord, CircuitProposal, CircuitProposalVote}
use splinter.Admin.Validation.{
  Keys, node_ids, voters, is_reject, has_reject, accepted, rejected, check_approved,
  validate_circuit_vote, voter_role, add_vote,
}

-- A member other than the requester, who has to vote.
abbrev pub must_vote : CircuitProposal → String → Bool
must_vote p n =
    if n == p.requester_node_id then false else contains (node_ids p.circuit_proposal.members) n

-- The nodes that voted are exactly those that have to.
abbrev pub IsComplete : CircuitProposal → Type 0
IsComplete p = (n : String) → contains (voters p.votes) n ≡ must_vote p n

has_reject-eq-any : (vs : List VoteRecord) → has_reject vs ≡ any (λ v. is_reject v.vote) vs
unfolding has_reject any
has_reject-eq-any [] = refl
has_reject-eq-any (v ∷ vs) = ground (arith, has_reject-eq-any vs)

abbrev required : CircuitProposal → List String
required p = Sets.remove p.requester_node_id (from_list (node_ids p.circuit_proposal.members))

contains-required : (p : CircuitProposal) (n : String) → contains (required p) n ≡ must_vote p n
contains-required p n =
    rw (contains-remove p.requester_node_id n (from_list (node_ids p.circuit_proposal.members)))
      (rw (contains-from_list (node_ids p.circuit_proposal.members) n))

-- The two sets that the source compares.
set_eq-IsComplete :
    (p : CircuitProposal) → (set_eq (required p) (from_list (voters p.votes)) ≡ true) ↔ IsComplete p
set_eq-IsComplete p = (
  (λ e.
      let both = (set_eq_iff (required p) (from_list (voters p.votes))).0 e in
      λ n.
        Bool-ext _ _
          (λ v.
            rw (contains-required p n) at (both.1 n (rw (contains-from_list (voters p.votes) n) v)))
          (λ m.
            rw (contains-from_list (voters p.votes) n) at
              (both.0 n (rw (contains-required p n) m)))),
  (λ c. (set_eq_iff (required p) (from_list (voters p.votes))).1 (
    (λ n m. ground (arith, c n, contains-required p n, contains-from_list (voters p.votes) n)),
    (λ n m. ground (arith, c n, contains-required p n, contains-from_list (voters p.votes) n)),
  )),
)

-- A proposal is rejected exactly when some vote rejects it, and accepted exactly when none does
-- and the nodes that voted are the members without the requester.
pub check_approved_iff :
    (p : CircuitProposal)
    → ((check_approved p ≡ rejected) ↔ (any (λ (v : VoteRecord). is_reject v.vote) p.votes ≡ true))
      × ((check_approved p ≡ accepted)
          ↔ ((any (λ (v : VoteRecord). is_reject v.vote) p.votes ≡ false) × IsComplete p))
unfolding check_approved
check_approved_iff p =
    let same = has_reject-eq-any p.votes in
    let sets = set_eq-IsComplete p in
    (
      ((λ h. ground (arith, same)), (λ h. ground (arith, same))),
      (
        (λ h. (ground (arith, same), sets.0 (ground (arith, same)))),
        (λ h. ground (arith, same, sets.1 h.1)),
      ),
    )

contains-append :
    (n : String) (xs ys : List String) → contains (xs ++ ys) n ≡ (contains xs n || contains ys n)
unfolding contains
contains-append n [] ys = refl
contains-append n (x ∷ xs) ys = ground (arith, contains-append n xs ys)

voters-append : (xs ys : List VoteRecord) → voters (xs ++ ys) ≡ voters xs ++ voters ys
voters-append [] ys = refl
voters-append (x ∷ xs) ys = cc (voters-append xs ys)

pub contains-voters-add_vote :
    (p : CircuitProposal) (signer : Bytes) (vote : Vote) (node : String)
    → contains (voters (add_vote p signer vote node).votes) node ≡ true
unfolding add_vote
contains-voters-add_vote p signer vote node =
    rw (voters-append p.votes _, contains-append node (voters p.votes) _)
      (unfold contains in ground (arith, eq_self node))

-- A key of a node that is neither a member nor the requester passes the check of its vote, if the
-- permissions can be read, the node has not voted and the vote names the right hash; and after that vote the proposal is
-- never accepted, whatever votes follow.
pub outsider_blocks :
    (keys : Keys) (vote : CircuitProposalVote) (signer : Bytes) (p : CircuitProposal)
    (node : String) (allowed : Bool)
    → keys.node_of_key signer ≡ ok (some node)
    → (p.requester_node_id == node) ≡ false
    → contains (node_ids p.circuit_proposal.members) node ≡ false
    → any (λ n. n == node) (voters p.votes) ≡ false
    → keys.is_permitted signer voter_role ≡ ok allowed
    → (p.circuit_hash == vote.circuit_hash) ≡ true
    → (validate_circuit_vote keys vote signer p node ≡ ok tt)
      × ((more : List VoteRecord)
          → check_approved (record p { votes = (add_vote p signer vote.vote node).votes ++ more })
            ≢ accepted)
unfolding validate_circuit_vote
outsider_blocks keys vote signer p node allowed k r m n perm h = (
  rw k (ground (arith, eq_self node)),
  (λ more a.
      let p' = record p { votes = (add_vote p signer vote.vote node).votes ++ more } in
      let complete = ((check_approved_iff p').1.0 a).1 node in
      let voted : contains (voters p'.votes) node ≡ true =
        rw (voters-append (add_vote p signer vote.vote node).votes more) (
          rw (contains-append node (voters (add_vote p signer vote.vote node).votes) (voters more))
            (ground (arith, contains-voters-add_vote p signer vote.vote node))) in
      ground (arith, eq_iff node p.requester_node_id, eq_iff p.requester_node_id node)),
)
