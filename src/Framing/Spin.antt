-- ===== src/Framing/Spin.antt =====
-- A control message of length 0 in `parse` of server/src/worker.rs.
use reddit_puzzle_system_des.Base.{
  ℕ, zero, suc, ◌+◌, ◌≤◌, ltb, leb, ◌==◌, ◌&&◌, true, false, some, List, ◌≡◌, ◌∙◌, refl, arith,
}
use reddit_puzzle_system_des.Settings.{msg_control_len}
use reddit_puzzle_system_des.Outcome.{running}
use reddit_puzzle_system_des.Framing.Bytes.{read_le, read_le_inside}
use reddit_puzzle_system_des.Framing.{
  control_pos, cmsghdr_size, ipproto_ip, ip_pktinfo, align, find_pktinfo, read_local, parse,
}
use reddit_puzzle_system_des.Framing.Ends.{IsRoomy, find_pktinfo-round, read_peer_ends}

align-zero : align 0 ≡ 0
unfolding align
align-zero = refl

module _ (buf : List ℕ) (level kind : ℕ) (at_len : read_le 8 buf control_pos ≡ some 0)
    (at_level : read_le 4 buf (control_pos + 8) ≡ some level)
    (at_kind : read_le 4 buf (control_pos + 12) ≡ some kind)
    (foreign : (level == ipproto_ip && kind == ip_pktinfo) ≡ false) where
  -- Each round leaves the position where it is.
  find_pktinfo_spins :
      (fuel end : ℕ)
      → control_pos + cmsghdr_size ≤ end
      → find_pktinfo fuel buf control_pos end ≡ running
  unfolding find_pktinfo
  find_pktinfo_spins zero end inside = refl
  find_pktinfo_spins (suc fuel) end inside =
      find_pktinfo-round fuel buf control_pos end 0 level kind (ground arith) at_len at_level
        at_kind
      ∙ rw (foreign, align-zero) (find_pktinfo_spins fuel end inside)

  -- A buffer whose first control message is no packet info and announces length 0 keeps `parse` in
  -- its loop for ever: it has not ended after any number of rounds.
  pub parse_spins :
      (fuel local_port controllen : ℕ)
      → IsRoomy buf
      → read_le 4 buf 4 ≡ some controllen
      → cmsghdr_size ≤ controllen
      → controllen ≤ msg_control_len
      → parse fuel local_port buf ≡ running
  unfolding parse read_local
  parse_spins fuel local_port controllen roomy at_controllen long short =
      let (namelen, at_namelen) = read_le_inside 4 buf 0 (omega arith) in
      let (payloadlen, at_payloadlen) = read_le_inside 4 buf 8 (omega arith) in
      let (peer, at_peer) = read_peer_ends buf roomy namelen in
      let present : (ltb 0 controllen && leb controllen msg_control_len) ≡ true = ground arith in
      let spins = find_pktinfo_spins fuel (control_pos + controllen) (omega arith) in
      rw (parse, read_local, at_namelen, at_controllen, at_payloadlen, at_peer, present, spins) refl
