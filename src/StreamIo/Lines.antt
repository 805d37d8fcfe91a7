-- ===== src/StreamIo/Lines.antt =====
-- readline.c: my_read, which hands out the bytes of a buffer one by one, readline and readlinebuf.
use com_tutor.Base.{ℕ, zero, suc, ◌+◌, ◌-◌, List, [], ◌∷◌, length, ◌==◌, if◌then◌else◌}
use com_tutor.Base.Int.{ℤ, pos, negsuc, is_pos, dec}
use com_tutor.Base.Errno.{Errno}
use com_tutor.StreamIo.{
  Answer, got, eof, interrupted, refused, Reader, Reply, returned, refusal, endless,
}
pub mod Feed
pub mod Laws

-- The static variables: `read_ptr` are the bytes from the pointer on that the last read has stored.
pub record Buffer : Type 0 where
  pub read_cnt : ℤ
  pub read_ptr : List ℕ

abbrev pub max_line : ℕ
max_line = 4096

abbrev pub newline : ℕ
newline = 10

-- `*read_ptr++` and `read_cnt--`. Where no byte is left behind the pointer the code would read old
-- bytes: here zeros.
abbrev pub next_byte : List ℕ → ℕ
next_byte [] = 0
next_byte (c ∷ cs) = c

abbrev pub behind : List ℕ → List ℕ
behind [] = []
behind (c ∷ cs) = cs

-- What my_read comes to: a byte, the end of the file, an error, or a loop out of rounds.
pub data Byte : Type 0 where
  byte : ℕ → Byte
  at_end : Byte
  broken : Errno → Byte
  spinning : Byte

unfoldable pub fetch : Buffer → Byte × Buffer
fetch b = (
  byte (next_byte b.read_ptr),
  record { read_cnt = dec b.read_cnt; read_ptr = behind b.read_ptr },
)

module _ (d : Reader) where
  open d use {State, read}

  -- From the label `again` on.
  unfoldable pub refill : (rounds : ℕ) → Buffer → State → Byte × Buffer × State
  unfolding fetch
  refill zero b s = (spinning, b, s)
  refill (suc k) b s =
      let (answer, s') = read s max_line in
      elim answer [
        | interrupted ↦ refill k (record b { read_cnt = negsuc 0 }) s'
        | refused e ↦ (broken e, record b { read_cnt = negsuc 0 }, s')
        | eof ↦ (at_end, record b { read_cnt = pos 0 }, s')
        | got bs ↦
            let (c, b') = fetch (record { read_cnt = pos (length bs); read_ptr = bs }) in
            (c, b', s')
      ]

  unfoldable pub my_read : (rounds : ℕ) → Buffer → State → Byte × Buffer × State
  unfolding refill fetch
  my_read rounds b s =
      if is_pos b.read_cnt then (let (c, b') = fetch b in (c, b', s)) else refill rounds b s

  -- The loop of readline, from `n` on, with `room` rounds to go until `maxlen`: the result, the bytes
  -- stored, and the two states.
  unfoldable pub line_loop : (rounds room n : ℕ) → Buffer → State → Reply × List ℕ × Buffer × State
  unfolding my_read
  line_loop rounds zero n b s = (returned n, [], b, s)
  line_loop rounds (suc room) n b s =
      let (c, b', s') = my_read rounds b s in
      elim c [
        | byte c ↦
            let (r, line, b'', s'') = line_loop rounds room (n + 1) b' s' in
            if c == newline then (returned n, c ∷ [], b', s') else (r, c ∷ line, b'', s'')
        | at_end ↦ (returned (n - 1), [], b', s')
        | broken e ↦ (refusal e, [], b', s')
        | spinning ↦ (endless, [], b', s')
      ]

  unfoldable pub readline : (rounds maxlen : ℕ) → Buffer → State → Reply × List ℕ × Buffer × State
  unfolding line_loop
  readline rounds maxlen b s = line_loop rounds (maxlen - 1) 1 b s

-- readlinebuf: the count, and the bytes that the caller's pointer then shows if the count is not 0.
unfoldable pub readlinebuf : Buffer → ℤ × List ℕ
readlinebuf b = elim b.read_cnt as (λ x. ℤ × List ℕ) [
  | pos zero ↦ (pos zero, [])
  | pos (suc k) ↦ (pos (suc k), b.read_ptr)
  | negsuc k ↦ (negsuc k, b.read_ptr)
]
