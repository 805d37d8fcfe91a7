-- ===== src/Mycat/Threads.antt =====
-- The reader and the writer of one file, interleaved in any order.
use com_tutor.Base.{ℕ, ◌≤◌, ◌≡◌, ◌≢◌, some, List, [], ◌++◌, length}
use com_tutor.Mycat.{
  Shared, initial, buffsize, Reader, at_empty, reading, produce, Writer, at_stored, consume,
}

-- Both threads with their indices, and what is still to be read of the file.
pub record World : Type 0 where
  pub shared : Shared
  pub reader : Reader
  pub put_at : ℕ
  pub writer : Writer
  pub get_at : ℕ
  pub input : List ℕ

pub data Step (w : World) : World → Type 0 where
  produces :
      (p' : Reader) (i' : ℕ) (s' : Shared)
      → w.reader ≢ reading
      → produce [] w.shared w.put_at w.reader ≡ some (p', i', s')
      → Step w (record w { shared = s'; reader = p'; put_at = i' })
  -- Read gives the next bytes of the file, and none only at its end.
  reads :
      (chunk rest : List ℕ) (p' : Reader) (i' : ℕ) (s' : Shared)
      → w.reader ≡ reading
      → w.input ≡ chunk ++ rest
      → length chunk ≤ buffsize
      → (chunk ≡ [] → rest ≡ [])
      → produce chunk w.shared w.put_at reading ≡ some (p', i', s')
      → Step w (record w { shared = s'; reader = p'; put_at = i'; input = rest })
  consumes :
      (c' : Writer) (i' : ℕ) (s' : Shared)
      → consume w.shared w.get_at w.writer ≡ some (c', i', s')
      → Step w (record w { shared = s'; writer = c'; get_at = i' })

abbrev pub start : List ℕ → World
start file = record {
  shared = initial;
  reader = at_empty;
  put_at = 0;
  writer = at_stored;
  get_at = 0;
  input = file;
}

pub data Reach (file : List ℕ) : World → Type 0 where
  begins : Reach file (start file)
  later : {w w' : World} → Reach file w → Step w w' → Reach file w'
