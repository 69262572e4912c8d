-- ===== src/Kernel/Packet/Frames.antt =====
-- That nd_parse_ipv4_udp reads from the bytes of a datagram what was put there.
use networkdoctor_prestudy.Base.{
  ℕ, suc, ◌+◌, ◌*◌, ◌/◌, ◌%◌, ◌^◌, ◌<◌, ◌≤◌, ◌≡◌, refl, ap, ◌∙◌, arith, Bool, true, false, not,
  some, List, [], ◌∷◌, ◌++◌, length, get_elem?, ltb, ◌==◌, if◌then◌else◌, length-append,
}
use networkdoctor_prestudy.Kernel.Packet.{
  read_be16, read_u32, parse_udp, parse_ipv4, parse_frame, parse_dns,
}
use networkdoctor_prestudy.Kernel.Packet.Datagram.{
  Datagram, IsDatagram, udp_bytes, fixed_bytes, print_datagram, dns_bytes, header_of,
}

get_elem?-skip {ℓ} :
    {A : Type ℓ} (xs ys : List A) (i : ℕ) → get_elem? (xs ++ ys) (length xs + i) ≡ get_elem? ys i
get_elem?-skip [] ys i = let e : 0 + i ≡ i = omega arith in ap (get_elem? ys) e
get_elem?-skip (x ∷ xs) ys i =
    let e : suc (length xs) + i ≡ suc (length xs + i) = omega arith in
    ap (get_elem? (x ∷ (xs ++ ys))) e ∙ get_elem?-skip xs ys i

le→ltb_false : (a b : ℕ) → b ≤ a → ltb a b ≡ false
le→ltb_false a b h = ground arith

module _ (g : Datagram) (wf : IsDatagram g) where
  -- A byte of the UDP part, at its offset in the frame.
  udp_byte :
      (off j : ℕ)
      → off ≡ 34 + (4 * g.option_words + j)
      → get_elem? (print_datagram g) off ≡ get_elem? (udp_bytes g) j
  unfolding print_datagram
  udp_byte off j e =
      ap (get_elem? (fixed_bytes g ++ (g.options ++ udp_bytes g)))
        (let n = wf.options in let e' : off ≡ 34 + (length g.options + j) = omega arith in e')
      ∙ get_elem?-skip (fixed_bytes g) (g.options ++ udp_bytes g) (length g.options + j)
      ∙ get_elem?-skip g.options (udp_bytes g) j

  length_lem : length (print_datagram g) ≡ 42 + (4 * g.option_words + length g.payload)
  unfolding print_datagram
  length_lem = let n = wf.options in omega (arith, length-append {0} g.options (udp_bytes g))

  -- The two ports and the addresses.
  read_sport :
      (off : ℕ) → off ≡ 34 + 4 * g.option_words → read_be16 (print_datagram g) off ≡ some g.sport
  unfolding read_be16
  read_sport off e =
      let p = wf.sport in
      rw (read_be16, udp_byte off 0 (omega arith), udp_byte (off + 1) 1 (omega arith))
        (ap some (omega arith))

  read_dport :
      (off : ℕ) → off ≡ 36 + 4 * g.option_words → read_be16 (print_datagram g) off ≡ some g.dport
  unfolding read_be16
  read_dport off e =
      let p = wf.dport in
      rw (read_be16, udp_byte off 2 (omega arith), udp_byte (off + 1) 3 (omega arith))
        (ap some (omega arith))

  read_saddr : read_u32 (print_datagram g) 26 ≡ some g.saddr
  unfolding read_u32 print_datagram
  read_saddr = let p = wf.saddr in ap some (omega arith)

  read_daddr : read_u32 (print_datagram g) 30 ≡ some g.daddr
  unfolding read_u32 print_datagram
  read_daddr = let p = wf.daddr in ap some (omega arith)

  parse_udp-print :
      parse_udp (print_datagram g) (34 + 4 * g.option_words) ≡ some (some (header_of g))
  unfolding parse_udp
  parse_udp-print =
      let n = 34 + 4 * g.option_words in
      let room : ltb (length (print_datagram g)) (n + 8) ≡ false =
        le→ltb_false _ _ (omega (arith, length_lem)) in
      rw
        (
          parse_udp,
          room,
          read_sport n refl,
          read_dport (n + 2) (omega arith),
          read_saddr,
          read_daddr,
        )
        (ap (λ (p : ℕ). some (some (record (header_of g) { payload = p }))) (omega arith))

  -- The hook reads from the bytes of a UDP datagram in IPv4 on Ethernet, not fragmented and with up to
  -- ten words of options, its addresses and ports and where its payload begins.
  pub parse_frame-print : parse_frame (print_datagram g) ≡ some (some (header_of g))
  unfolding parse_frame parse_ipv4
  parse_frame-print =
      let room : ltb (length (print_datagram g)) 14 ≡ false =
        le→ltb_false _ _ (omega (arith, length_lem)) in
      rw (parse_frame, room, read_type) parse_ipv4-print
    where
      read_type : read_be16 (print_datagram g) 12 ≡ some 0x0800
      read_type = unfold read_be16 print_datagram in refl

      read_protocol : get_elem? (print_datagram g) 23 ≡ some 17
      read_protocol = unfold print_datagram in refl

      read_frag :
          read_be16 (print_datagram g) 20 ≡ some ((if g.dont_fragment then 0x40 else 0) * 256 + 0)
      read_frag = unfold read_be16 print_datagram in refl

      read_ihl : get_elem? (print_datagram g) 14 ≡ some (0x45 + g.option_words)
      read_ihl = unfold print_datagram in refl

      not_fragment : (t : Bool) → not (((if t then 0x40 else 0) * 256 + 0) % 16384 == 0) ≡ false
      not_fragment true = refl
      not_fragment false = refl

      long_enough : ltb ((0x45 + g.option_words) % 16 * 4) 20 ≡ false
      long_enough = let k = wf.option_words in le→ltb_false _ _ (omega arith)

      offset : 14 + (0x45 + g.option_words) % 16 * 4 ≡ 34 + 4 * g.option_words
      offset = let k = wf.option_words in omega arith

      parse_ipv4-print : parse_ipv4 (print_datagram g) ≡ some (some (header_of g))
      parse_ipv4-print =
          let room : ltb (length (print_datagram g)) 34 ≡ false =
            le→ltb_false _ _ (omega (arith, length_lem)) in
          rw
            (
              parse_ipv4,
              room,
              read_protocol,
              read_frag,
              not_fragment g.dont_fragment,
              read_ihl,
              long_enough,
              offset,
            )
            parse_udp-print

  -- A DNS message in the payload, with at least the whole of its header.
  pub parse_dns-print :
      (txid flags : ℕ) (rest : List ℕ)
      → g.payload ≡ dns_bytes txid flags rest
      → 8 ≤ length rest
      → txid < 2 ^ 16
      → flags < 2 ^ 16
      → parse_dns (print_datagram g) (header_of g).payload
        ≡ some (some (record { txid = txid; flags = flags }))
  unfolding parse_dns read_be16
  parse_dns-print txid flags rest e long ht hf =
      let off = (header_of g).payload in
      let n : length g.payload ≡ 4 + length rest = omega (arith, ap length e) in
      let room : ltb (length (print_datagram g)) (off + 12) ≡ false =
        le→ltb_false _ _ (omega (arith, length_lem)) in
      let b0 : get_elem? (print_datagram g) off ≡ some (txid / 256 % 256) =
        udp_byte off 8 (omega arith) ∙ ap (λ l. get_elem? l 0) e in
      let b1 : get_elem? (print_datagram g) (off + 1) ≡ some (txid / 1 % 256) =
        udp_byte (off + 1) 9 (omega arith) ∙ ap (λ l. get_elem? l 1) e in
      let b2 : get_elem? (print_datagram g) (off + 2) ≡ some (flags / 256 % 256) =
        udp_byte (off + 2) 10 (omega arith) ∙ ap (λ l. get_elem? l 2) e in
      let b3 : get_elem? (print_datagram g) (off + 2 + 1) ≡ some (flags / 1 % 256) =
        udp_byte (off + 2 + 1) 11 (omega arith) ∙ ap (λ l. get_elem? l 3) e in
      rw (parse_dns, room, read_be16, b0, b1, b2, b3)
        (λ i. some (some (record { txid = txid_eq i; flags = flags_eq i })))
    where
      txid_eq : txid / 256 % 256 * 256 + txid / 1 % 256 ≡ txid
      txid_eq = omega arith

      flags_eq : flags / 256 % 256 * 256 + flags / 1 % 256 ≡ flags
      flags_eq = omega arith
