-- ===== src/Client/Discovery/Devices.antt =====
-- _upsert_node: the addresses under which one device stands in the table of nodes.
use dpmp.Prelude.{
  ℕ, ◌≡◌, true, false, some, [], ◌∷◌, Text, text_eq, text_eq_iff, text_key, nonempty, arith,
  Bool-cases, inl, inr,
}
use dpmp.Dict.{Dict, get}
use dpmp.Dict.Laws.{get-put}
use dpmp.Client.Discovery.{
  Node, Announcement, Source, drop_device, same_device, upsert_node, or_text, refreshed,
}

-- Without the address itself, no node of the device is left.
dropped :
    (ip did q : Text) (n : Node) (nodes : Dict Text Node)
    → get q (drop_device ip did nodes) ≡ some n
    → text_eq q ip ≡ false
    → same_device did n.device_id ≡ false
unfolding drop_device get
dropped ip did q n [] h e = ground arith
dropped ip did q n ((j, m) ∷ nodes) h e =
    let rest = dropped ip did q n nodes in
    ground (arith, rest, text_eq_iff j q, text_eq_iff j ip, text_eq_iff q ip)

-- When a device announces itself from an address, no other address stands for it afterwards.
pub device_once :
    (ip : Text) (msg : Announcement) (source : Source) (now : ℕ) (nodes : Dict Text Node) (q : Text)
    (n : Node)
    → nonempty (or_text [] msg.device_id) ≡ true
    → get q (upsert_node ip msg source now nodes).0 ≡ some n
    → same_device (or_text [] msg.device_id) n.device_id ≡ true
    → q ≡ ip
unfolding upsert_node
device_once ip msg source now nodes q n d h e =
    let did = or_text [] msg.device_id in
    let kept = drop_device ip did nodes in
    let new =
      refreshed (get ip kept) (or_text ip msg.hostname) did (or_text [] msg.mac) now source in
    let g = get-put ip q new kept in
    elim (Bool-cases (text_eq q ip)) [
      | inl f ↦ (text_eq_iff q ip).0 f
      | inr f ↦
          let gone = dropped ip did q n nodes in
          ground (arith, g, gone, text_eq_iff ip q, text_eq_iff q ip)
    ]
