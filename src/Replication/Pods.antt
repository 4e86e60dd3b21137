-- ===== src/Replication/Pods.antt =====
-- The pods that DNS names (DiscoverPeersDNS of internal/replication/coordinator.go).
use acp_kv.Prelude.{
  ap, sym, List, Option, String, [], none, some, str_eq, ◌∷◌, ◌⊎◌, ◌↔◌, inl, inr, true, false, ◌≡◌,
  ◌≢◌, ◌∙◌, str_eq_iff, Bool-cases, refl,
}
use acp_kv.Config.Load.{pod_addr}
use acp_kv.Failure.{Error}
use acp_kv.Replication.{contains}
use acp_kv.Replication.Discovery.{
  Resolver, find_name, peer_of_parts, peer_of_names, append_peer, peers_at, headless_pattern,
}

-- The first of the names that has the pattern.
abbrev pub IsFirst : Resolver → String → String → List String → Type 0
IsFirst r pattern fqdn [] = ⊥
IsFirst r pattern fqdn (name ∷ names) =
    ((r.has_part name pattern ≡ true) × (name ≡ fqdn))
    ⊎ ((r.has_part name pattern ≡ false) × IsFirst r pattern fqdn names)

-- The resolver names another pod of the service at an IP: of the names that it gives to the IP, the first with
-- the pattern of the service begins with the pod's, which is not the node's own. `a` is the pod's address.
pub record IsPodAt (r : Resolver) (node_id svc ns a ip : String) : Type 0 where
  pub names : List String
  pub answered : r.lookup_addr ip ≡ inr names
  pub fqdn : String
  pub first : IsFirst r (headless_pattern svc ns) fqdn names
  pub named : fqdn ≢ ""
  pub pod : String
  pub part : String
  pub parts : List String
  pub dotted : r.split fqdn "." ≡ pod ∷ part ∷ parts
  pub other : pod ≢ node_id
  pub addressed : pod_addr pod svc ns ≡ a

-- At one of the IPs.
abbrev pub IsPodAmong : Resolver → String → String → String → String → List String → Type 0
IsPodAmong r node_id svc ns a [] = ⊥
IsPodAmong r node_id svc ns a (ip ∷ ips) =
    IsPodAt r node_id svc ns a ip ⊎ IsPodAmong r node_id svc ns a ips

find_name_first :
    (r : Resolver) (pattern fqdn : String) (names : List String)
    → fqdn ≢ ""
    → find_name r pattern names ≡ fqdn
    → IsFirst r pattern fqdn names
unfolding find_name
find_name_first r pattern fqdn [] ne e = ne (sym e)
find_name_first r pattern fqdn (name ∷ names) ne e = elim (Bool-cases (r.has_part name pattern)) [
  | inl has ↦ inl (has, rw has at e)
  | inr lacks ↦ inr (lacks, find_name_first r pattern fqdn names ne (rw lacks at e))
]

first-find_name :
    (r : Resolver) (pattern fqdn : String) (names : List String)
    → IsFirst r pattern fqdn names
    → find_name r pattern names ≡ fqdn
unfolding find_name
first-find_name r pattern fqdn [] h = absurd h
first-find_name r pattern fqdn (name ∷ names) (inl (has, same)) = rw has same
first-find_name r pattern fqdn (name ∷ names) (inr (lacks, h)) =
    rw lacks (first-find_name r pattern fqdn names h)

-- What the parts of a name give.
peer_of_parts_found :
    (node_id svc ns a : String) (parts : List String)
    → peer_of_parts node_id svc ns parts ≡ some a
    → (pod : String) × (part : String) × (rest : List String) × (parts ≡ pod ∷ part ∷ rest)
      × (pod ≢ node_id)
      × (pod_addr pod svc ns ≡ a)
unfolding peer_of_parts
peer_of_parts_found node_id svc ns a [] e = absurd (cc (e))
peer_of_parts_found node_id svc ns a (pod ∷ []) e = absurd (cc (e))
peer_of_parts_found node_id svc ns a (pod ∷ part ∷ rest) e =
    elim (Bool-cases (str_eq pod node_id)) [
      | inl own ↦ absurd (cc (rw own at e))
      | inr other ↦
          let same : some (pod_addr pod svc ns) ≡ some a = rw other at e in
          (pod, part, rest, refl, λ q. cc (other, (str_eq_iff pod node_id).1 q), cc (same))
    ]

peer_of_names_found :
    (r : Resolver) (node_id svc ns a ip : String) (found : Error ⊎ List String)
    → r.lookup_addr ip ≡ found
    → peer_of_names r node_id svc ns found ≡ some a
    → IsPodAt r node_id svc ns a ip
unfolding peer_of_names
peer_of_names_found r node_id svc ns a ip (inl x) e h = absurd (cc (h))
peer_of_names_found r node_id svc ns a ip (inr []) e h = absurd (cc (h))
peer_of_names_found r node_id svc ns a ip (inr (name ∷ names)) e h =
    let fqdn = find_name r (headless_pattern svc ns) (name ∷ names) in
    elim (Bool-cases (str_eq fqdn "")) [
      | inl empty ↦ absurd (cc (rw empty at h))
      | inr named ↦
          let ne : fqdn ≢ "" = λ q. cc (named, (str_eq_iff fqdn "").1 q) in
          let (pod, part, rest, dotted, other, addressed) =
            peer_of_parts_found node_id svc ns a (r.split fqdn ".") (rw named at h) in
          record {
            names = name ∷ names;
            answered = e;
            fqdn = fqdn;
            first = find_name_first r (headless_pattern svc ns) fqdn (name ∷ names) ne refl;
            named = ne;
            pod = pod;
            part = part;
            parts = rest;
            dotted = dotted;
            other = other;
            addressed = addressed;
          }
    ]

peer_of_parts_pod :
    (node_id svc ns pod part : String) (parts : List String)
    → pod ≢ node_id
    → peer_of_parts node_id svc ns (pod ∷ part ∷ parts) ≡ some (pod_addr pod svc ns)
unfolding peer_of_parts
peer_of_parts_pod node_id svc ns pod part parts other = elim (Bool-cases (str_eq pod node_id)) [
  | inl own ↦ absurd (other ((str_eq_iff pod node_id).0 own))
  | inr e ↦ rw e refl
]

peer_of_names_first :
    (r : Resolver) (node_id svc ns a fqdn : String) (names : List String)
    → IsFirst r (headless_pattern svc ns) fqdn names
    → fqdn ≢ ""
    → peer_of_parts node_id svc ns (r.split fqdn ".") ≡ some a
    → peer_of_names r node_id svc ns (inr names) ≡ some a
unfolding peer_of_names
peer_of_names_first r node_id svc ns a fqdn [] first ne e = absurd first
peer_of_names_first r node_id svc ns a fqdn (name ∷ names) first ne e =
    rw (first-find_name r (headless_pattern svc ns) fqdn (name ∷ names) first)
      (elim (Bool-cases (str_eq fqdn "")) [
        | inl empty ↦ absurd (ne ((str_eq_iff fqdn "").0 empty))
        | inr named ↦ rw named e
      ])

peer_of_names_pod :
    (r : Resolver) (node_id svc ns a ip : String)
    → IsPodAt r node_id svc ns a ip
    → peer_of_names r node_id svc ns (r.lookup_addr ip) ≡ some a
peer_of_names_pod r node_id svc ns a ip h = rw h.answered (
    peer_of_names_first r node_id svc ns a h.fqdn h.names h.first h.named (
      rw h.dotted
        (peer_of_parts_pod node_id svc ns h.pod h.part h.parts h.other ∙ ap some h.addressed)))

contains-append_peer :
    (a : String) (o : Option String) (peers : List String)
    → (contains a (append_peer o peers) ≡ true) ↔ ((o ≡ some a) ⊎ (contains a peers ≡ true))
unfolding append_peer contains
contains-append_peer a none peers =
    (λ h. inr h, λ h. elim h [ inl e ↦ absurd (cc (e)) | inr there ↦ there ])
contains-append_peer a (some b) peers = elim (Bool-cases (str_eq b a)) [
  | inl same ↦ (λ h. inl (ap some ((str_eq_iff b a).0 same)), λ h. rw same refl)
  | inr apart ↦ rw apart (
    λ h. inr h,
    λ h. elim h [ inl e ↦ absurd (cc (apart, (str_eq_iff b a).1 (cc (e)))) | inr there ↦ there ],
  )
]

-- `DiscoverPeersDNS` finds just the other pods of the service.
pub peers_at_iff :
    (r : Resolver) (node_id svc ns a : String) (ips : List String)
    → (contains a (peers_at r node_id svc ns ips) ≡ true) ↔ IsPodAmong r node_id svc ns a ips
unfolding peers_at contains
peers_at_iff r node_id svc ns a [] = (λ h. cc (h), λ h. absurd h)
peers_at_iff r node_id svc ns a (ip ∷ ips) =
    let (to, from) =
      contains-append_peer a (peer_of_names r node_id svc ns (r.lookup_addr ip))
        (peers_at r node_id svc ns ips) in
    let (found, listed) = peers_at_iff r node_id svc ns a ips in
    (
      λ h. elim (to h) [
        | inl e ↦ inl (peer_of_names_found r node_id svc ns a ip (r.lookup_addr ip) refl e)
        | inr there ↦ inr (found there)
      ],
      λ h. elim h [
        | inl pod ↦ from (inl (peer_of_names_pod r node_id svc ns a ip pod))
        | inr there ↦ from (inr (listed there))
      ],
    )
