-- ===== src/Conf/Compare/Parts.antt =====
-- What it means that the comparisons of the parts of a configuration give 0: the frame buffer, the
-- devices, the networks and the counts.
use bmd.Prelude.{ℕ, ◌<◌, ◌^◌, ℤ, pos, Option, some, List, Str, ◌≡◌, arith}
use bmd.Conf.{PassthruConf, DiskConf, IsoConf, NetConf, Fbuf}
use bmd.Conf.Compare.{
  cmp_num, compare_string, bool_int, fbuf_chain, passthru_chain, disk_chain, iso_chain, net_chain,
  compare_fbuf, compare_passthru_conf, compare_disk_conf, compare_iso_conf, compare_net_conf,
  compare_queue,
}
use bmd.Conf.Compare.Zero.{
  IsInt, cmp_num_self, cmp_num-eq_zero, cmp_bool-eq_zero, compare_string_self,
  compare_string-eq_zero, first_nonzero-All, All-first_nonzero, compare_queue_self,
}

pub record FbufInRange (f : Fbuf) : Type 0 where
  pub enable : IsInt f.enable
  pub port : IsInt f.port
  pub width : IsInt f.width
  pub height : IsInt f.height

-- What a network of the configuration file gives.
abbrev pub net_key : NetConf → Str × Str
net_key n = (n.type, n.bridge)

-- Pairs a proof with those of the rest of a chain.
infixr 20 ◌▹◌
pattern abbrev pub ◌▹◌ : {P Q : Type 0} → P → Q → P × Q
p ▹ q = (p, q)

pub some-eq : {x y : Str} → compare_string (some x) (some y) ≡ pos 0 → x ≡ y
some-eq {x} {y} h = cc (compare_string-eq_zero (some x) (some y) h)

pub some_self : {x y : Str} → x ≡ y → compare_string (some x) (some y) ≡ pos 0
some_self {y} e = rw e (compare_string_self (some y))

-- Each comparison of a part gives 0 exactly when the parts agree.
pub compare_fbuf-eq_zero :
    (a b : Fbuf) → FbufInRange a → FbufInRange b → compare_fbuf a b ≡ pos 0 → a ≡ b
unfolding compare_fbuf
compare_fbuf-eq_zero a b ra rb h =
    let t = first_nonzero-All (fbuf_chain a b) h in
    ground (
      arith,
      cmp_num-eq_zero a.enable b.enable ra.enable rb.enable t.0,
      some-eq t.1.0,
      cmp_num-eq_zero a.port b.port ra.port rb.port t.1.1.0,
      cmp_num-eq_zero a.width b.width ra.width rb.width t.1.1.1.0,
      cmp_num-eq_zero a.height b.height ra.height rb.height t.1.1.1.1.0,
      some-eq t.1.1.1.1.1.0,
      cmp_bool-eq_zero a.wait b.wait t.1.1.1.1.1.1.0,
      compare_string-eq_zero a.password b.password t.1.1.1.1.1.1.1.0,
    )

compare_fbuf_self : (a : Fbuf) → compare_fbuf a a ≡ pos 0
unfolding compare_fbuf
compare_fbuf_self a = All-first_nonzero (fbuf_chain a a) (
    cmp_num_self a.enable
    ▹ compare_string_self (some a.ipaddr)
    ▹ cmp_num_self a.port
    ▹ cmp_num_self a.width
    ▹ cmp_num_self a.height
    ▹ compare_string_self (some a.vgaconf)
    ▹ cmp_num_self (bool_int a.wait)
    ▹ compare_string_self a.password
    ▹ tt)

pub passthru-eq : (a b : PassthruConf) → compare_passthru_conf a b ≡ pos 0 → a ≡ b
unfolding compare_passthru_conf
passthru-eq a b h = ground (arith, some-eq (first_nonzero-All (passthru_chain a b) h).0)

pub disk-eq : (a b : DiskConf) → compare_disk_conf a b ≡ pos 0 → a ≡ b
unfolding compare_disk_conf
disk-eq a b h =
    let t = first_nonzero-All (disk_chain a b) h in ground (arith, some-eq t.0, some-eq t.1.0)

pub iso-eq : (a b : IsoConf) → compare_iso_conf a b ≡ pos 0 → a ≡ b
unfolding compare_iso_conf
iso-eq a b h =
    let t = first_nonzero-All (iso_chain a b) h in ground (arith, some-eq t.0, some-eq t.1.0)

pub net-eq : (a b : NetConf) → compare_net_conf a b ≡ pos 0 → net_key a ≡ net_key b
unfolding compare_net_conf
net-eq a b h =
    let t = first_nonzero-All (net_chain a b) h in ground (arith, some-eq t.0, some-eq t.1.0)

pub passthru_self : (a : PassthruConf) → compare_passthru_conf a a ≡ pos 0
unfolding compare_passthru_conf
passthru_self a = All-first_nonzero (passthru_chain a a) (compare_string_self (some _), tt)

pub disk_self : (a : DiskConf) → compare_disk_conf a a ≡ pos 0
unfolding compare_disk_conf
disk_self a =
    All-first_nonzero (disk_chain a a)
      (compare_string_self (some _), (compare_string_self (some _), tt))

pub iso_self : (a : IsoConf) → compare_iso_conf a a ≡ pos 0
unfolding compare_iso_conf
iso_self a =
    All-first_nonzero (iso_chain a a)
      (compare_string_self (some _), (compare_string_self (some _), tt))

pub net-of_key : (a b : NetConf) → net_key a ≡ net_key b → compare_net_conf a b ≡ pos 0
unfolding compare_net_conf
net-of_key a b e =
    All-first_nonzero (net_chain a b) (some_self (ground arith), (some_self (ground arith), tt))

pub cmp_count-eq_zero :
    (m n : ℕ) → m < 2 ^ 31 → n < 2 ^ 31 → cmp_num (pos m) (pos n) ≡ pos 0 → m ≡ n
cmp_count-eq_zero m n hm hn h =
    let e : pos m ≡ pos n = cmp_num-eq_zero (pos m) (pos n) (omega arith) (omega arith) h in cc

pub num_zero : {x y : ℤ} → x ≡ y → cmp_num x y ≡ pos 0
num_zero {y} e = rw e (cmp_num_self y)

pub string_zero : {x y : Option Str} → x ≡ y → compare_string x y ≡ pos 0
string_zero {y} e = rw e (compare_string_self y)

pub fbuf_zero : {x y : Fbuf} → x ≡ y → compare_fbuf x y ≡ pos 0
fbuf_zero {y} e = rw e (compare_fbuf_self y)

pub queue_zero {ℓ} :
    {A : Type ℓ} (cmp : A → A → ℤ)
    → ((x : A) → cmp x x ≡ pos 0)
    → {xs ys : List A} → xs ≡ ys
    → compare_queue cmp xs ys ≡ pos 0
queue_zero cmp self {ys} e = rw e (compare_queue_self cmp self ys)
