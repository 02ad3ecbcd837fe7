-- ===== src/Compose/Workloads/Volumes.antt =====
-- The volumes of a workload, in `asWorkload` of compose/convert.go.
use k8s_lab.Common.{
  Bool, true, false, ℕ, zero, suc, ◌+◌, ◌-◌, List, [], ◌∷◌, ◌++◌, ◌&&◌, not, ◌==◌, nat_eq, list_eq,
  leb, ◌≡◌, refl, sym, ap, ◌∙◌, if◌then◌else◌, length, length-append, map, keep, take, arith, subst,
  Memᴰ, length-map, inl, inr, Bool-cases,
}
use mathlib.Core.List.{append-nil, append_assoc}
use k8s_lab.Common.Bytes.{Bytes, text}
use k8s_lab.Common.Sort.Unique.{mem-append_left, mem-append_right}
use k8s_lab.Compose.Workloads.Environments.{mem-sort_notes}
use k8s_lab.Compose.Siblings.{judge}
use k8s_lab.Compose.{VolumeSpec, Volume, Quantity, Note, Runtime, Template, Service, Options}
use k8s_lab.Compose.Names.{object_name}
use k8s_lab.Compose.Workloads.{
  bind_note, claimed_note, volume_note, volume_step, volume_loop, as_workload, workload_from,
  port_choice, read_environment, sibling_notes,
}

-- A mount that can be claimed: not of the host, and with a path.
abbrev pub is_claimable : VolumeSpec → Bool
is_claimable v = not v.bind && not (v.target == [])

abbrev pub claim : Runtime → Quantity → VolumeSpec → Volume
claim go size v = record { name = object_name go v.source; path = v.target; size = size }

-- The note of a mount, where eight mounts may already be claimed.
abbrev pub mount_note : Bytes → Quantity → Bool → VolumeSpec → Note
mount_note name size full v =
    if v.bind
    then bind_note name v
    else if v.target == []
    then volume_note name (v.source ++ text " has no target path")
    else if full
    then volume_note name (v.source ++ text " dropped: a workload may declare eight volumes")
    else claimed_note name size v

take_full : {A : Type 0} (n : ℕ) (xs : List A) → leb n (length (take n xs)) ≡ leb n (length xs)
unfolding take
take_full zero xs = ground arith
take_full (suc n) [] = refl
take_full (suc n) (x ∷ xs) = ground (arith, take_full n xs)

take_nil : {A : Type 0} (n : ℕ) → take {A = A} n [] ≡ []
unfolding take
take_nil zero = refl
take_nil (suc n) = refl

take_none : {A : Type 0} (n : ℕ) (xs : List A) → leb 8 n ≡ true → take (8 - n) xs ≡ []
unfolding take
take_none n xs h = let e : 8 - n ≡ 0 = ground arith in rw e refl

take_one :
    {A : Type 0} (n : ℕ) (x : A) (xs : List A)
    → leb 8 n ≡ false
    → take (8 - n) (x ∷ xs) ≡ x ∷ take (8 - (n + 1)) xs
unfolding take
take_one n x xs h = let e : 8 - n ≡ suc (8 - (n + 1)) = ground arith in rw e refl

-- One round of the loop against one step of the description.
one_step :
    (b : Bool) (f : VolumeSpec → Volume) (v : VolumeSpec) (vs : List VolumeSpec) (c : List Volume)
    → let now = if b && not (leb 8 (length c)) then c ++ (f v ∷ []) else c in
      now ++ map f (take (8 - length now) vs)
      ≡ c ++ map f (take (8 - length c) (if b then v ∷ vs else vs))
one_step false f v vs c = refl
one_step true f v vs c = elim (Bool-cases (leb 8 (length c))) [
  | inl full ↦ rw full (
      ap (λ z. c ++ map f z)
        (take_none (length c) vs full ∙ sym (take_none (length c) (v ∷ vs) full)))
  | inr room ↦
      rw (room, length-append c (f v ∷ []))
        (append_assoc c (f v ∷ []) (map f (take (8 - (length c + 1)) vs))
          ∙ ap (λ z. c ++ map f z) (sym (take_one (length c) v vs room)))
]

module _ (go : Runtime) (name : Bytes) (size : Quantity) where
  volume_step-claims :
      (acc : List Volume × List Note) (v : VolumeSpec)
      → (volume_step go name size acc v).0 ≡ (
          if is_claimable v && not (leb 8 (length acc.0))
          then acc.0 ++ (claim go size v ∷ [])
          else acc.0)
  unfolding volume_step
  volume_step-claims acc v = ground arith

  volume_loop-claims :
      (vs : List VolumeSpec) (acc : List Volume × List Note)
      → (volume_loop go name size acc vs).0
        ≡ acc.0 ++ map (claim go size) (take (8 - length acc.0) (keep is_claimable vs))
  unfolding volume_loop keep
  volume_loop-claims [] acc =
      sym
        (ap (λ z. acc.0 ++ map (claim go size) z) (take_nil (8 - length acc.0)) ∙ append-nil acc.0)
  volume_loop-claims (v ∷ vs) acc =
      volume_loop-claims vs (volume_step go name size acc v)
      ∙ ap (λ c. c ++ map (claim go size) (take (8 - length c) (keep is_claimable vs)))
          (volume_step-claims acc v)
      ∙ one_step (is_claimable v) (claim go size) v (keep is_claimable vs) acc.0

  volume_step-note :
      (acc : List Volume × List Note) (v : VolumeSpec)
      → (volume_step go name size acc v).1
        ≡ acc.1 ++ (mount_note name size (leb 8 (length acc.0)) v ∷ [])
  unfolding volume_step
  volume_step-note acc v = elim (Bool-cases v.bind) [
    | inl a ↦ rw a refl
    | inr a ↦ elim (Bool-cases (v.target == [])) [
      | inl b ↦ rw (a, b) refl
      | inr b ↦ elim (Bool-cases (leb 8 (length acc.0))) [
        | inl c ↦ rw (a, b, c) refl
        | inr c ↦ rw (a, b, c) refl
      ]
    ]
  ]

  -- No note is lost on the way.
  volume_loop-keeps :
      (vs : List VolumeSpec) (acc : List Volume × List Note) (n : Note)
      → Memᴰ n acc.1
      → Memᴰ n (volume_loop go name size acc vs).1
  unfolding volume_loop
  volume_loop-keeps [] acc n m = m
  volume_loop-keeps (v ∷ vs) acc n m =
      volume_loop-keeps vs (volume_step go name size acc v) n
        (subst (λ z. Memᴰ n z) (sym (volume_step-note acc v)) (mem-append_left acc.1 _ m))

  volume_loop-append :
      (us vs : List VolumeSpec) (acc : List Volume × List Note)
      → volume_loop go name size acc (us ++ vs)
        ≡ volume_loop go name size (volume_loop go name size acc us) vs
  unfolding volume_loop
  volume_loop-append [] vs acc = refl
  volume_loop-append (u ∷ us) vs acc = volume_loop-append us vs (volume_step go name size acc u)

  volume_loop-note :
      (us : List VolumeSpec) (v : VolumeSpec) (vs : List VolumeSpec)
      → Memᴰ
          (mount_note name size (leb 8 (length (keep is_claimable us))) v)
          (volume_loop go name size ([], []) (us ++ (v ∷ vs))).1
  volume_loop-note us v vs =
      let so_far = volume_loop go name size ([], []) us in
      let claims : length so_far.0 ≡ length (take 8 (keep is_claimable us)) =
        ap length (volume_loop-claims us ([], []))
        ∙ length-map (claim go size) (take 8 (keep is_claimable us)) in
      let full : leb 8 (length so_far.0) ≡ leb 8 (length (keep is_claimable us)) =
        ap (leb 8) claims ∙ take_full 8 (keep is_claimable us) in
      let now : Memᴰ (mount_note name size (leb 8 (length (keep is_claimable us))) v)
          (volume_step go name size so_far v).1 =
        subst (λ z. Memᴰ (mount_note name size z v) (volume_step go name size so_far v).1) full
          (subst (λ z. Memᴰ (mount_note name size (leb 8 (length so_far.0)) v) z)
            (sym (volume_step-note so_far v)) (mem-append_right so_far.1 _ (Memᴰ.head refl))) in
      subst
        (λ (z : List Volume × List Note).
          Memᴰ (mount_note name size (leb 8 (length (keep is_claimable us))) v) z.1)
        (sym (volume_loop-append us (v ∷ vs) ([], [])))
        (unfold volume_loop in volume_loop-keeps vs (volume_step go name size so_far v) _ now)

-- A workload claims the first eight mounts of its service that are not of the host and have a
-- path, in order, each at the chosen size and under its name as a label; and every mount of the
-- service, claimed or not, leaves its note among the workload's notes: that it is of the host, that
-- it has no path, that it was dropped because eight of the mounts before it could be claimed, or
-- else that it was claimed.
pub volumes_claimed :
    (go : Runtime) (t : Template) (name : Bytes) (svc : Service) (o : Options) (primary : Bytes)
    → let out = as_workload go t name svc o primary in
      (out.0.volumes ≡ map (claim go o.volume_size) (take 8 (keep is_claimable svc.volumes)))
      × ((us : List VolumeSpec) (v : VolumeSpec) (vs : List VolumeSpec)
          → svc.volumes ≡ us ++ (v ∷ vs)
          → Memᴰ (mount_note name o.volume_size (leb 8 (length (keep is_claimable us))) v) out.1)
unfolding as_workload workload_from
volumes_claimed go t name svc o primary = (
  volume_loop-claims go name o.volume_size svc.volumes ([], []),
  λ us v vs parts. mem-sort_notes _ (
      mem-append_right (port_choice t.port name svc (name == primary)).1 _ (
        mem-append_right (read_environment name svc.environment).notes _ (
          mem-append_right
            (sibling_notes (judge go t name primary) go name
              (read_environment name svc.environment).env
              (read_environment name svc.environment).generated)
            _
            (mem-append_left (volume_loop go name o.volume_size ([], []) svc.volumes).1 _ (
              subst
                (λ z.
                  Memᴰ (mount_note name o.volume_size (leb 8 (length (keep is_claimable us))) v)
                    (volume_loop go name o.volume_size ([], []) z).1)
                (sym parts) (volume_loop-note go name o.volume_size us v vs)))))),
)
