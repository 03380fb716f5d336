-- ===== src/Post/Host/Ifcfg/Steps.antt =====
-- What the steps of `Ip` (src/webhostd/ip.cpp) keep of a list of parameters.
use webhost.Base.{
  ◌≡◌, refl, Bool, true, false, ◌&&◌, [], ◌∷◌, ◌++◌, arith, All, All-append, Bool-cases, inl, inr,
}
use webhost.Qt.{QString, QStringList, lit, str_eq, str_eq_iff, str_eq_refl, Library}
use webhost.Daemon.Ip.{Params, has_param, ip_seed_entry, ip_prune_entry, new_value, set_values}

-- Every entry of the name has the value.
abbrev pub Sets : QString → QString → Params → Type 0
Sets name v = All (λ e. str_eq e.0 name ≡ true → e.1 ≡ v)

pub other_name : (n a b : QString) → str_eq a b ≡ false → str_eq n a ≡ true → str_eq n b ≡ false
other_name n a b h e = ground (arith, str_eq_iff n a, str_eq_iff n b, str_eq_iff a b)

pub netmask_only :
    (n : QString)
    → str_eq n (lit "NETMASK") ≡ true
    → (str_eq n (lit "IPADDR") ≡ false) × (str_eq n (lit "GATEWAY") ≡ false)
unfolding str_eq lit
netmask_only n e = (
  other_name n (lit "NETMASK") (lit "IPADDR") refl e,
  other_name n (lit "NETMASK") (lit "GATEWAY") refl e,
)

pub gateway_only :
    (n : QString)
    → str_eq n (lit "GATEWAY") ≡ true
    → (str_eq n (lit "IPADDR") ≡ false) × (str_eq n (lit "NETMASK") ≡ false)
unfolding str_eq lit
gateway_only n e = (
  other_name n (lit "GATEWAY") (lit "IPADDR") refl e,
  other_name n (lit "GATEWAY") (lit "NETMASK") refl e,
)

has_param-last : (ps : Params) (n : QString) → has_param (ps ++ (n, lit "0.0.0.0") ∷ []) n ≡ true
unfolding has_param
has_param-last [] n = rw (str_eq_refl n)
has_param-last ((p, v) ∷ ps) n = ground (arith, has_param-last ps n)

has_param-left :
    (ps qs : Params) (n : QString) → has_param ps n ≡ true → has_param (ps ++ qs) n ≡ true
unfolding has_param
has_param-left [] qs n h = absurd (ground arith)
has_param-left ((p, v) ∷ ps) qs n h = ground (arith, has_param-left ps qs n)

pub has_param-seed_same : (n : QString) (ps : Params) → has_param (ip_seed_entry n ps) n ≡ true
unfolding ip_seed_entry has_param
has_param-seed_same n ps = elim (Bool-cases (has_param ps n)) [
  | inl e ↦ rw (e, e)
  | inr e ↦ rw e (has_param-last ps n)
]

pub has_param-seed :
    (m n : QString) (ps : Params) → has_param ps n ≡ true → has_param (ip_seed_entry m ps) n ≡ true
unfolding ip_seed_entry
has_param-seed m n ps h = elim (Bool-cases (has_param ps m)) [
  | inl e ↦ rw (e, h)
  | inr e ↦ rw e (has_param-left ps _ n h)
]

pub has_param-set_values :
    (qt : Library) (cmds : QStringList) (d : Bool) (ps : Params) (n : QString)
    → has_param (set_values qt cmds d ps) n ≡ has_param ps n
unfolding set_values has_param
has_param-set_values qt cmds d [] n = refl
has_param-set_values qt cmds d ((p, v) ∷ ps) n = rw (has_param-set_values qt cmds d ps n)

pub has_param-prune :
    (m n : QString) (ps : Params)
    → str_eq m n ≡ false
    → has_param (ip_prune_entry m ps) n ≡ has_param ps n
unfolding ip_prune_entry has_param
has_param-prune m n [] h = refl
has_param-prune m n ((p, v) ∷ ps) h =
    ground (arith, has_param-prune m n ps h, str_eq_iff p m, str_eq_iff p n, str_eq_iff m n)

pub prune-All :
    (P : QString × QString → Type 0) (m : QString) (ps : Params)
    → All P ps
    → All P (ip_prune_entry m ps)
unfolding ip_prune_entry
prune-All P m [] h = tt
prune-All P m ((p, v) ∷ ps) h = elim (Bool-cases (str_eq p m && str_eq v (lit "0.0.0.0"))) [
  | inl e ↦ rw e h.1
  | inr e ↦ rw e (h.0, prune-All P m ps h.1)
]

pub seed-All :
    (P : QString × QString → Type 0) (m : QString) (ps : Params)
    → P (m, lit "0.0.0.0")
    → All P ps
    → All P (ip_seed_entry m ps)
unfolding ip_seed_entry
seed-All P m ps new h = elim (Bool-cases (has_param ps m)) [
  | inl e ↦ rw e h
  | inr e ↦ rw e (All-append _ ps _ h (new, tt))
]

pub set_values-Sets :
    (qt : Library) (cmds : QStringList) (d : Bool) (name v : QString)
    → ((p x : QString) → str_eq p name ≡ true → new_value qt cmds d p x ≡ v)
    → (ps : Params) → Sets name v (set_values qt cmds d ps)
unfolding set_values
set_values-Sets qt cmds d name v h [] = tt
set_values-Sets qt cmds d name v h ((p, x) ∷ ps) = (h p x, set_values-Sets qt cmds d name v h ps)
