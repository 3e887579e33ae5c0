-- ===== src/Server/Join/Rejoin.antt =====
-- A device that joins its room again.
use dpmp.Prelude.{
  ℕ, ◌≤◌, ◌≡◌, refl, sym, subst, ap, ◌∙◌, inl, inr, true, false, not, ◌&&◌, some, List, [], ◌∷◌,
  leb, Text, text_eq, text_eq_iff, text_key, nonempty, length, arith, All, Bool-cases, All-if,
  All-if_first, All-if_rest,
}
use mathlib.Core.Option.{some-injective}
use dpmp.Dict.{get, has, put, remove}
use dpmp.Dict.Laws.{get-put, get-remove, has-get, Distinct, remove-Distinct}
use dpmp.Server.Format.{Addr, strip}
use dpmp.Server.State.{Settings, Member, Room, Server, Message, or_default, members_of, member_at}
use dpmp.Server.Join.{
  enter_room, enter, choose_id, duplicates, remove_duplicates, forget_mappings, new_member,
}

own_id :
    (did reuse : Text) (members : Room) (old : Member)
    → nonempty did ≡ true
    → nonempty reuse ≡ true
    → length reuse ≤ 64
    → get reuse members ≡ some old
    → old.did ≡ did
    → choose_id did reuse members ≡ some reuse
unfolding choose_id
own_id did reuse members old e n l h d = rw h (ground (arith, e, n, l, d, text_eq_iff old.did did))

duplicates_apart :
    (did reuse : Text) (members : Room)
    → All (λ d. text_eq d reuse ≡ false) (duplicates did (some reuse) members)
unfolding duplicates
duplicates_apart did reuse [] = tt
duplicates_apart did reuse ((m, info) ∷ members) =
    let later = duplicates_apart did reuse members in
    All-if (λ d. text_eq d reuse ≡ false) (text_eq info.did did && not (text_eq m reuse)) m
      (duplicates did (some reuse) members) (λ e. ground arith) later

-- Another member of the device is among the duplicates.
duplicates_cover :
    (did reuse : Text) (members : Room) (m : Text) (info : Member)
    → get m members ≡ some info
    → text_eq info.did did ≡ true
    → text_eq m reuse ≡ false
    → All (λ d. text_eq d m ≡ false) (duplicates did (some reuse) members)
    → ⊥
unfolding duplicates get
duplicates_cover did reuse [] m info h d o a = ground arith
duplicates_cover did reuse ((k, other) ∷ members) m info h d o a =
    let rest = duplicates did (some reuse) members in
    let b = text_eq other.did did && not (text_eq k reuse) in
    elim (Bool-cases (text_eq k m)) [
      | inl e ↦
          let same = (text_eq_iff k m).0 e in
          let info_ = some-injective other info (sym (rw e refl) ∙ h) in
          let chosen : b ≡ true = ground arith in
          let apart = All-if_first (λ d. text_eq d m ≡ false) b k rest chosen a in
          ground (arith, apart, e)
      | inr e ↦
          duplicates_cover did reuse members m info (sym (rw e refl) ∙ h) d o
            (All-if_rest (λ d. text_eq d m ≡ false) b k rest a)
    ]

removed_kept :
    (dups : List Text) (members : Room) (s : Server) (k : Text)
    → Distinct members
    → All (λ d. text_eq d k ≡ false) dups
    → get k (remove_duplicates dups members s).0 ≡ get k members
unfolding remove_duplicates forget_mappings
removed_kept [] members s k u a = refl
removed_kept (d ∷ dups) members s k u a =
    removed_kept dups (remove d members) _ k (remove-Distinct d members u) a.1
    ∙ get-remove d k members u
    ∙ rw a.0 refl

-- What is left after the removal was there, under an id that was not removed.
removed_left :
    (dups : List Text) (members : Room) (s : Server) (k : Text) (info : Member)
    → Distinct members
    → get k (remove_duplicates dups members s).0 ≡ some info
    → (get k members ≡ some info) × All (λ d. text_eq d k ≡ false) dups
unfolding remove_duplicates forget_mappings
removed_left [] members s k info u h = (h, tt)
removed_left (d ∷ dups) members s k info u h =
    let (there, a) =
      removed_left dups (remove d members) _ k info (remove-Distinct d members u) h in
    let g = get-remove d k members u in (ground (arith, g, there), (ground (arith, g, there), a))

full_lem :
    (n : ℕ) (k : Text) (old : Member) (members : Room)
    → get k members ≡ some old
    → (leb n (length members) && not (has k members)) ≡ false
full_lem n k old members h = let g = has-get k members in ground (arith, g, h)

-- The room after `reuse` is entered.
entry :
    (room reuse : Text) (member : Member) (addr : Addr) (removed : List Text) (members : Room)
    (s : Server)
    → (get reuse (enter room reuse member addr removed members s).0.id_index ≡ some (room, addr))
      × (members_of room (enter room reuse member addr removed members s).0
          ≡ put reuse member members)
unfolding enter
entry room reuse member addr removed members s =
    let i = get-put reuse reuse (room, addr) s.id_index in
    let q = get-put room room (put reuse member members) s.rooms in
    let there : get room (put room (put reuse member members) s.rooms)
        ≡ some (put reuse member members) =
      ground (arith, q, text_eq_iff room room) in
    (ground (arith, i, text_eq_iff reuse reuse), ap (or_default []) there)

-- Only the member `reuse` is of the device `did`.
abbrev pub IsOnly : Text → Text → Room → Type 0
IsOnly did reuse members =
    (m : Text) (info : Member) → get m members ≡ some info → info.did ≡ did → m ≡ reuse

only_lem :
    (did reuse : Text) (member : Member) (members : Room) (s : Server)
    → Distinct members
    → IsOnly did reuse
        (put reuse member (remove_duplicates (duplicates did (some reuse) members) members s).0)
only_lem did reuse member members s u m info h d =
    let dups = duplicates did (some reuse) members in
    let left = (remove_duplicates dups members s).0 in
    let g = get-put reuse m member left in
    elim (Bool-cases (text_eq m reuse)) [
      | inl e ↦ (text_eq_iff m reuse).0 e
      | inr e ↦
          let differs : text_eq reuse m ≡ false =
            ground (arith, text_eq_iff reuse m, text_eq_iff m reuse, e) in
          let (there, a) = removed_left dups members s m info u (sym (g ∙ rw differs refl) ∙ h) in
          absurd
            (duplicates_cover did reuse members m info there ((text_eq_iff info.did did).1 d) e a)
    ]

pub rejoined :
    (c : Settings) (fresh room reuse : Text) (msg : Message) (addr : Addr) (now : ℕ) (s : Server)
    (old : Member)
    → nonempty (or_default [] msg.did) ≡ true
    → strip (or_default [] msg.reuse_id) ≡ reuse
    → nonempty reuse ≡ true
    → length reuse ≤ 64
    → Distinct (members_of room s)
    → member_at room reuse s ≡ some old
    → old.did ≡ or_default [] msg.did
    → (get reuse (enter_room c fresh room msg addr now (members_of room s) s).0.id_index
        ≡ some (room, addr))
      × (member_at room reuse (enter_room c fresh room msg addr now (members_of room s) s).0
          ≡ some (new_member msg addr now))
      × IsOnly
          (or_default [] msg.did)
          reuse
          (members_of room (enter_room c fresh room msg addr now (members_of room s) s).0)
unfolding enter_room
rejoined c fresh room reuse msg addr now s old n r n' l u h d =
    let did = or_default [] msg.did in
    let members = members_of room s in
    let dups = duplicates did (some reuse) members in
    let e = own_id did reuse members old n n' l h d in
    let (left, s', closed) = remove_duplicates dups members s in
    let kept = removed_kept dups members s reuse u (duplicates_apart did reuse members) ∙ h in
    let full = full_lem c.max_room_size reuse old left kept in
    let s'' = (forget_mappings reuse s').0 in
    let (i, q) = entry room reuse (new_member msg addr now) addr dups left s'' in
    let own = get-put reuse reuse (new_member msg addr now) left in
    rw (r, e, n, full)
      (
        i,
        ap (get reuse) q ∙ own ∙ rw ((text_eq_iff reuse reuse).1 refl) refl,
        subst (IsOnly did reuse) (sym q) (only_lem did reuse (new_member msg addr now) members s u),
      )
