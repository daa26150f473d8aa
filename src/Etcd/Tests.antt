-- ===== src/Etcd/Tests.antt =====
-- Concrete states of the store.
use ouf_api_gateway.Base.{◌≡◌, refl, true, false, some, [], ◌∷◌, ok}
use ouf_api_gateway.Base.Text.{sort_by, insert_sorted, count_code}
use ouf_api_gateway.Etcd.Gate.{
  Gate, EtcdHealth, DesiredState, RestoredState, verify_restore, has_wildcard,
}
use ouf_api_gateway.Etcd.Safety.{IsFaithful, verify_restore-IsFaithful}

abbrev gate : Gate
gate = record {
  allowed_upstreams = "urban" ∷ "air" ∷ [];
  max_pending_proposals = 64;
  has_sink = true;
}

abbrev busy : EtcdHealth
busy = record { quorum = true; storage_slow = false; pending_proposals = 65; leader_changes = 1 }

abbrev desired : DesiredState
desired = record { revision = "r1"; routes = "/a" ∷ "/b" ∷ []; upstreams = "urban" ∷ [] }

abbrev restored : RestoredState
restored = record {
  active_revision = some "r1";
  routes = "/b" ∷ "/a" ∷ [];
  upstreams = "urban" ∷ [];
}

restored_verified : verify_restore gate desired restored ≡ ok tt
unfolding verify_restore sort_by insert_sorted has_wildcard count_code
restored_verified = refl

verify_restore-IsFaithful_example : IsFaithful gate desired restored
verify_restore-IsFaithful_example =
    verify_restore-IsFaithful gate desired restored restored_verified
