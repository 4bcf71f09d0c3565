-- ===== src/Klink/Plexus/Index.antt =====
-- The index table under `processMessage`.
use pweb.Prelude.{
  ℕ, ◌≡◌, refl, ◌∙◌, inl, inr, Bool, true, false, none, some, List, [], ◌∷◌, ◌++◌, Bytes,
  Bool-cases, Option-cases, same_bytes, same_bytes_refl, arith,
}
use pweb.Klink.OverlayId.{OverlayId, HostAddress}
use pweb.Klink.Message.{AbsMessage}
use pweb.Klink.NextHop.{
  PlexusMessage, plexus_get, plexus_get_reply, plexus_put, plexus_put_reply, other, Router,
  set_next_hop, is_stopped, decide, count_hit,
}
use pweb.Klink.Plexus.{Plexus, Unset, lookup_name, add_name, add_to_outgoing_queue}
use pweb.Klink.Plexus.Process.{queue_reply}

abbrev pub index : Plexus → List (Bytes × HostAddress)
index s = (s.router).index_table

decide-index :
    (own : ℕ) (b : AbsMessage) (r : Router) (f : _)
    → ((decide own b r f).router).index_table ≡ r.index_table
unfolding decide
decide-index own b r f = ground arith

count_hit-index :
    (m : PlexusMessage) (hit : Bool) (r : Router) → (count_hit m hit r).index_table ≡ r.index_table
unfolding count_hit
count_hit-index (plexus_get m) true r = refl
count_hit-index (plexus_get m) false r = refl
count_hit-index (plexus_put m) true r = refl
count_hit-index (plexus_put m) false r = refl
count_hit-index (plexus_get_reply m) hit r = refl
count_hit-index (plexus_put_reply m) hit r = refl
count_hit-index (other m) hit r = refl

pub set_next_hop-index :
    (created : OverlayId) (r : Router) (m : PlexusMessage)
    → ((set_next_hop created r m).router).index_table ≡ r.index_table
unfolding set_next_hop
set_next_hop-index created r m = elim (Bool-cases (is_stopped r m)) [
  | inl stop ↦ rw stop refl
  | inr go ↦ rw go (decide-index _ _ _ _ ∙ count_hit-index m _ _)
]

pub queue_reply-index :
    (u : Unset) (m : PlexusMessage) (s : Plexus) → index (queue_reply u m s) ≡ index s
unfolding queue_reply add_to_outgoing_queue
queue_reply-index u m s = elim (Bool-cases s.path) [
  | inl path ↦ rw path (set_next_hop-index u.oid s.router m)
  | inr endpoint ↦ rw endpoint refl
]

-- The names that a step may add.
module _ {V : Type 0} where
  pub lookup_name-append :
      (name n : Bytes) (v a : V) (t : List (Bytes × V))
      → lookup_name name t ≡ some a
      → lookup_name name (t ++ (n, v) ∷ []) ≡ some a
  unfolding lookup_name
  lookup_name-append name n v a [] e = absurd (cc e)
  lookup_name-append name n v a ((k, w) ∷ t) e = elim (Bool-cases (same_bytes k name)) [
    | inl this ↦ rw this (rw this at e)
    | inr that ↦ rw that (lookup_name-append name n v a t (rw that at e))
  ]

  pub add_name-keeps :
      (name n : Bytes) (v a : V) (t : List (Bytes × V))
      → lookup_name name t ≡ some a
      → lookup_name name (add_name n v t) ≡ some a
  unfolding add_name
  add_name-keeps name n v a t e = elim (Option-cases (lookup_name n t)) [
    | inl out ↦ rw (out, add_name) (lookup_name-append name n v a t e)
    | inr (w, here) ↦ rw (here, add_name) e
  ]

  lookup_name-last :
      (name : Bytes) (v : V) (t : List (Bytes × V))
      → lookup_name name t ≡ none
      → lookup_name name (t ++ (name, v) ∷ []) ≡ some v
  unfolding lookup_name
  lookup_name-last name v [] e = rw (same_bytes_refl name) refl
  lookup_name-last name v ((k, w) ∷ t) e = elim (Bool-cases (same_bytes k name)) [
    | inl this ↦ absurd (cc (rw this at e))
    | inr that ↦ rw that (lookup_name-last name v t (rw that at e))
  ]

  pub add_name-new :
      (name : Bytes) (v : V) (t : List (Bytes × V))
      → lookup_name name t ≡ none
      → lookup_name name (add_name name v t) ≡ some v
  unfolding add_name
  add_name-new name v t e = rw (e, add_name) (lookup_name-last name v t e)
