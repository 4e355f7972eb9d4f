-- ===== src/Convert/Backend.antt =====
-- Which firewall backend parseServerConfig detects.
use fwknop_go.Base.{
  ◌≡◌, refl, ap, ◌∙◌, Bool, true, false, Option, none, some, List, [], ◌∷◌, Bytes, codes,
  if◌then◌else◌, to_upper, trim_space, Bool-cases, Option-cases, inl, inr,
}
use fwknop_go.Convert.Lines.{
  is_skipped, scan_lines, split_pair, clean_value, KeyAction, KeyCategory, cat_convert,
  cat_convert_bool, cat_ignore, cat_warn, cat_unknown, cat_convert_list,
}
use fwknop_go.Convert.Server.{
  ServerState, Family, iptables, firewalld, ipfw, pf, nfq, no_family, family, next_backend,
  classify_server_key, server_setting, server_key, server_pair, server_line, server_lines,
  parse_server_config,
}

-- The families of the keys of a file, in its order.
abbrev of_pair : Option (Bytes × Bytes) → List Family → List Family
of_pair none fs = fs
of_pair (some (key, value)) fs = family (to_upper (trim_space key)) ∷ fs

abbrev pub families : List Bytes → List Family
families [] = []
families (l ∷ ls) =
    let rest = families ls in if is_skipped l then rest else of_pair (split_pair l) rest

abbrev pub has_firewalld : List Family → Bool
has_firewalld [] = false
has_firewalld (firewalld ∷ fs) = true
has_firewalld (_ ∷ fs) = has_firewalld fs

abbrev pub has_iptables : List Family → Bool
has_iptables [] = false
has_iptables (iptables ∷ fs) = true
has_iptables (_ ∷ fs) = has_iptables fs

-- The names of the two backends that override the others.
abbrev pub overriding : List Family → List Bytes
overriding [] = []
overriding (ipfw ∷ fs) = codes "ipfw" ∷ overriding fs
overriding (pf ∷ fs) = codes "pf" ∷ overriding fs
overriding (_ ∷ fs) = overriding fs

abbrev pub last_or : Bytes → List Bytes → Bytes
last_or d [] = d
last_or d (x ∷ xs) = last_or x xs

-- The last of ipfw and pf, or else firewalld before iptables.
abbrev pub detected : List Family → Bytes
detected fs =
    last_or
      (if has_firewalld fs
        then codes "firewalld"
        else if has_iptables fs
        then codes "iptables"
        else [])
      (overriding fs)

abbrev run : List Family → Bytes → Bytes
run [] b = b
run (f ∷ fs) b = run fs (next_backend f b)

-- ipfw and pf stay until the other comes.
mutual
  unfolding next_backend

  run_ipfw : (fs : List Family) → run fs (codes "ipfw") ≡ last_or (codes "ipfw") (overriding fs)
  run_ipfw [] = refl
  run_ipfw (iptables ∷ fs) = run_ipfw fs
  run_ipfw (firewalld ∷ fs) = run_ipfw fs
  run_ipfw (ipfw ∷ fs) = run_ipfw fs
  run_ipfw (pf ∷ fs) = run_pf fs
  run_ipfw (nfq ∷ fs) = run_ipfw fs
  run_ipfw (no_family ∷ fs) = run_ipfw fs

  run_pf : (fs : List Family) → run fs (codes "pf") ≡ last_or (codes "pf") (overriding fs)
  run_pf [] = refl
  run_pf (iptables ∷ fs) = run_pf fs
  run_pf (firewalld ∷ fs) = run_pf fs
  run_pf (ipfw ∷ fs) = run_ipfw fs
  run_pf (pf ∷ fs) = run_pf fs
  run_pf (nfq ∷ fs) = run_pf fs
  run_pf (no_family ∷ fs) = run_pf fs

run_firewalld :
    (fs : List Family) → run fs (codes "firewalld") ≡ last_or (codes "firewalld") (overriding fs)
unfolding next_backend
run_firewalld [] = refl
run_firewalld (iptables ∷ fs) = run_firewalld fs
run_firewalld (firewalld ∷ fs) = run_firewalld fs
run_firewalld (ipfw ∷ fs) = run_ipfw fs
run_firewalld (pf ∷ fs) = run_pf fs
run_firewalld (nfq ∷ fs) = run_firewalld fs
run_firewalld (no_family ∷ fs) = run_firewalld fs

run_iptables :
    (fs : List Family)
    → run fs (codes "iptables")
      ≡ last_or (if has_firewalld fs then codes "firewalld" else codes "iptables") (overriding fs)
unfolding next_backend
run_iptables [] = refl
run_iptables (iptables ∷ fs) = run_iptables fs
run_iptables (firewalld ∷ fs) = run_firewalld fs
run_iptables (ipfw ∷ fs) = run_ipfw fs
run_iptables (pf ∷ fs) = run_pf fs
run_iptables (nfq ∷ fs) = run_iptables fs
run_iptables (no_family ∷ fs) = run_iptables fs

run-detected : (fs : List Family) → run fs [] ≡ detected fs
unfolding next_backend
run-detected [] = refl
run-detected (iptables ∷ fs) = run_iptables fs
run-detected (firewalld ∷ fs) = run_firewalld fs
run-detected (ipfw ∷ fs) = run_ipfw fs
run-detected (pf ∷ fs) = run_pf fs
run-detected (nfq ∷ fs) = run-detected fs
run-detected (no_family ∷ fs) = run-detected fs

setting_backend :
    (c : KeyCategory) (a : KeyAction) (key value : Bytes) (s : ServerState)
    → (server_setting c a key value s).fw_backend ≡ s.fw_backend
unfolding server_setting
setting_backend cat_convert a key value s = refl
setting_backend cat_convert_bool a key value s = refl
setting_backend cat_ignore a key value s = refl
setting_backend cat_warn a key value s = refl
setting_backend cat_unknown a key value s = refl
setting_backend cat_convert_list a key value s = refl

key_backend :
    (f : Family) (key value : Bytes) (s : ServerState)
    → (server_key f key value s).fw_backend ≡ next_backend f s.fw_backend
unfolding server_key next_backend
key_backend iptables key value s = refl
key_backend firewalld key value s = refl
key_backend ipfw key value s = refl
key_backend pf key value s = refl
key_backend nfq key value s = refl
key_backend no_family key value s =
    setting_backend _ (classify_server_key (to_upper key)) key value s

line_backend :
    (l : Bytes) (fs : List Family) (s : ServerState)
    → run fs (server_line l s).fw_backend
      ≡ run (if is_skipped l then fs else of_pair (split_pair l) fs) s.fw_backend
unfolding server_line server_pair
line_backend l fs s = elim (Bool-cases (is_skipped l)) [
  | inl skipped ↦ rw skipped refl
  | inr counts ↦ elim (Option-cases (split_pair l)) [
    | inl no_pair ↦ rw (counts, no_pair) refl
    | inr ((key, value), pair) ↦
        rw (counts, pair)
          (ap (run fs) (
            key_backend (family (to_upper (trim_space key))) (trim_space key) (clean_value value)
              s))
  ]
]

lines_backend :
    (ls : List Bytes) (s : ServerState)
    → (server_lines ls s).fw_backend ≡ run (families ls) s.fw_backend
unfolding server_lines
lines_backend [] s = refl
lines_backend (l ∷ ls) s = lines_backend ls (server_line l s) ∙ line_backend l (families ls) s

-- The backend that is detected is the last of ipfw and pf that a key of the file belongs to; without
-- such a key it is firewalld if a key belongs to that, or else iptables if a key belongs to that, or
-- else none, whatever the order.
pub backend_detected :
    (input : Bytes)
    → (parse_server_config input).fw_backend ≡ detected (families (scan_lines input))
unfolding parse_server_config
backend_detected input =
    lines_backend (scan_lines input) _ ∙ run-detected (families (scan_lines input))
