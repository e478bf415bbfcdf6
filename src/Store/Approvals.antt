-- ===== src/Store/Approvals.antt =====
-- What an approval and a revocation change.
use wanfw.Common.{
  String, ◌≡◌, refl, true, false, ◌&&◌, ◌==◌, eq_iff, if◌then◌else◌, List, [], ◌∷◌, none, some,
  arith, find, upsert, update_where,
}
use wanfw.Store.{
  StateStore, ApprovalRow, has_hash, is_live, is_null, insert_approval, is_approved,
  revoke_approval,
}

is_live-upsert :
    (k h : String) (f : ApprovalRow → ApprovalRow) (row : ApprovalRow)
    → ((r : ApprovalRow) → ((f r).projection_hash ≡ r.projection_hash) × ((f r).revoked_at ≡ none))
    → row.projection_hash ≡ k
    → row.revoked_at ≡ none
    → (xs : List ApprovalRow)
    → is_live (find (has_hash h) (upsert (has_hash k) f row xs))
      ≡ (if k == h then true else is_live (find (has_hash h) xs))
is_live-upsert k h f row keep e live [] = ground (arith, eq_iff k h)
is_live-upsert k h f row keep e live (x ∷ xs) = ground (
  arith,
  keep x,
  is_live-upsert k h f row keep e live xs,
  eq_iff x.projection_hash k,
  eq_iff x.projection_hash h,
  eq_iff k h,
)

is_live-revoke :
    (now k h : String) (xs : List ApprovalRow)
    → is_live (
        find (has_hash h) (
          update_where
            (λ r. has_hash k r && is_null r.revoked_at)
            (λ r. record r { revoked_at = some now })
            xs))
      ≡ (if k == h then false else is_live (find (has_hash h) xs))
is_live-revoke now k h [] = ground (arith, eq_iff k h)
is_live-revoke now k h (x ∷ xs) = ground (
  arith,
  is_live-revoke now k h xs,
  eq_iff x.projection_hash k,
  eq_iff x.projection_hash h,
  eq_iff k h,
)

-- After an approval of a hash, exactly the hashes that were approved, and this one, are approved.
pub is_approved-insert_approval :
    (s : StateStore) (row : ApprovalRow) (h : String)
    → is_approved (insert_approval s row) h
      ≡ (if row.projection_hash == h then true else is_approved s h)
unfolding is_approved insert_approval
is_approved-insert_approval s row h =
    is_live-upsert row.projection_hash h _ _ (λ r. (refl, refl)) refl refl s.approvals

-- After a revocation of a hash, exactly the other hashes that were approved are approved.
pub is_approved-revoke_approval :
    (now : String) (s : StateStore) (k h : String)
    → is_approved (revoke_approval now s k) h ≡ (if k == h then false else is_approved s h)
unfolding is_approved revoke_approval
is_approved-revoke_approval now s k h = is_live-revoke now k h s.approvals
