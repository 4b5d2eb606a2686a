-- ===== src/Listener/Connection.antt =====
-- HandleConn, against the handling of the lines of a packet.
use statsd_bridge.Prelude.{
  ◌+◌, ◌≡◌, refl, inl, inr, Option, none, some, List, [], ◌∷◌, Bytes, Option-cases, ◌>>=◌,
}
use statsd_bridge.Listener.{
  LineParser, Listener, Read, line, prefix, eof, failed, handle_line, handle_lines, handle_reads,
  handle_conn,
}

-- the lines before the first answer that is none
unfoldable pub lines_before : List Read → List Bytes
lines_before [] = []
lines_before (line l ∷ reads) = l ∷ lines_before reads
lines_before (prefix l ∷ reads) = []
lines_before (eof ∷ reads) = []
lines_before (failed ∷ reads) = []

-- the first answer that is no line, if there is one
unfoldable pub end_of : List Read → Option Read
end_of [] = none
end_of (line l ∷ reads) = end_of reads
end_of (prefix l ∷ reads) = some (prefix l)
end_of (eof ∷ reads) = some eof
end_of (failed ∷ reads) = some failed

module _ {E P : Type 0} (parse : LineParser E P) where
  -- the counter of the reason for which a connection ends
  unfoldable pub closed : Option Read → Listener E P → Listener E P
  closed (some (prefix l)) s = record s { tcp_line_too_long = s.tcp_line_too_long + 1 }
  closed (some failed) s = record s { tcp_errors = s.tcp_errors + 1 }
  closed (some eof) s = s
  closed (some (line l)) s = s
  closed none s = s

  handle_reads-lines :
      (reads : List Read) (s : Listener E P)
      → handle_reads parse reads s
        ≡ (handle_lines parse (lines_before reads) s >>= λ s'. some (closed (end_of reads) s'))
  unfolding handle_reads handle_lines lines_before end_of closed
  handle_reads-lines [] s = refl
  handle_reads-lines (line l ∷ reads) s = elim (Option-cases (handle_line parse l s)) [
    | inl panics ↦ rw panics refl
    | inr (s', e) ↦ rw e (handle_reads-lines reads s')
  ]
  handle_reads-lines (prefix l ∷ reads) s = refl
  handle_reads-lines (eof ∷ reads) s = refl
  handle_reads-lines (failed ∷ reads) s = refl

  -- HandleConn counts the connection, handles the lines before the first answer that is none as those
  -- of a packet are handled, and counts a line that is too long or an error, if that ends it.
  pub handle_conn-lines :
      (reads : List Read) (s : Listener E P)
      → handle_conn parse reads s ≡ (
          handle_lines parse
            (lines_before reads)
            (record s { tcp_connections = s.tcp_connections + 1 })
          >>= λ s'. some (closed (end_of reads) s'))
  unfolding handle_conn
  handle_conn-lines reads s =
      handle_reads-lines reads (record s { tcp_connections = s.tcp_connections + 1 })
