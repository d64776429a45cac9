-- ===== src/Net/Examples.antt =====
-- Texts that are read back, as an instance of the interface of Texts: an address is its 16 bytes, a port
-- its two bytes, and a host has its length in front.
use magic_tun.Base.{
  ℕ, ◌+◌, ◌*◌, ◌/◌, ◌%◌, ◌≡◌, refl, sym, ap, ◌∙◌, inl, inr, Option, none, some, List, [], ◌∷◌, ◌++◌,
  arith, eqb, if◌then◌else◌, length, take, drop, take-append_length, drop-append_length,
  Option-cases, length-append,
}
use magic_tun.Net.Ip.{v4_prefix, to4, to16, or_nil, to16-to4, to16_self, length-to4}
use magic_tun.Net.Prefix.{shorten}
use magic_tun.Net.Texts.{Texts, IsTexts}
use magic_tun.Wire.Address.{IsAddress}

abbrev split_text : List ℕ → Option (List ℕ × List ℕ)
split_text [] = none
split_text (n ∷ rest) = some (take n rest, drop n rest)

abbrev scan_text : List ℕ → Option ℕ
scan_text (a ∷ b ∷ []) = some (a * 256 + b)
scan_text _ = none

abbrev pub toy_texts : Texts
toy_texts = record {
  split_host_port = split_text;
  join_host_port = λ host port. length host ∷ (host ++ port);
  parse_ip = λ text. if eqb (length text) 16 then some text else none;
  ip_string = λ ip. or_nil (to16 ip);
  decimal = λ port. port / 256 ∷ port % 256 ∷ [];
  scan_port = scan_text;
}

split_lem : (host port : List ℕ) → split_text (length host ∷ (host ++ port)) ≡ some (host, port)
split_lem host port =
    rw
      (
        take-append_length (length host) host port refl,
        drop-append_length (length host) host port refl,
      )
      refl

to16_long : (ip : List ℕ) → IsAddress ip → (a : List ℕ) × (to16 ip ≡ some a) × (length a ≡ 16)
unfolding to16
to16_long ip (inl four) = (v4_prefix ++ ip, ground arith, omega arith)
to16_long ip (inr long) = (ip, ground arith, long)

to16-shorten : (ip : List ℕ) → to16 (shorten ip) ≡ to16 ip
unfolding shorten
to16-shorten ip = elim (Option-cases (to4 ip)) [
  | inl e ↦ rw (e, shorten) refl
  | inr (a, e) ↦
      let size = length-to4 ip a e in
      let short : to16 a ≡ some (v4_prefix ++ a) = unfold to16 in ground arith in
      rw (e, shorten) (short ∙ sym (to16-to4 ip a e))
]

length-to16 : (ip a : List ℕ) → to16 ip ≡ some a → length a ≡ 16
unfolding to16
length-to16 ip a h = ground (arith, length-append v4_prefix ip)

pub toy_texts-IsTexts : IsTexts toy_texts
toy_texts-IsTexts = record {
  split = λ ip port h. split_lem (or_nil (to16 ip)) (port / 256 ∷ port % 256 ∷ []);
  parse = λ ip h. let (a, long, size) = to16_long ip h in rw long (rw size refl);
  scan = λ port h. ap (λ (n : ℕ). some n) (omega arith);
  same_long = λ ip a long. rw long (rw (to16_self a (length-to16 ip a long)) refl);
  same_short = λ ip h. ap or_nil (to16-shorten ip);
}
