-- ===== src/Telemetry/Recorder/Once.antt =====
-- Through the recorder, a handler writes one status, before its body.
use cloud_native_service_con.Base.{
  All, List, [], ◌∷◌, ◌≡◌, ◌≢◌, ◌+◌, ℕ, ap, arith, false, refl, ◌==◌, ◌∙◌,
}
use cloud_native_service_con.Text.{Str}
use cloud_native_service_con.Telemetry.Recorder.{
  Recorder, ResponseWriter, new_recorder, recorder_write, recorder_write_header, status_code,
  write_body,
}

-- What a handler calls on its writer.
pub data Call : Type 0 where
  header : ℕ → Call
  body : Str → Call

-- A status that net/http accepts.
abbrev pub IsCall : Call → Type 0
IsCall (header code) = code ≢ 0
IsCall (body s) = Unit

-- The bodies among the calls.
unfoldable pub bodies : List Call → List Str
bodies [] = []
bodies (header code ∷ calls) = bodies calls
bodies (body s ∷ calls) = s ∷ bodies calls

-- The status of the response: the first that is set before a body is written, and else 200.
unfoldable pub first_status : List Call → ℕ
first_status (header code ∷ calls) = code
first_status _ = 200

nonzero : (code : ℕ) → code ≢ 0 → (code == 0) ≡ false
nonzero code h = ground arith

module _ {W : Type 0} (writer : ResponseWriter W) where
  -- The calls on the recorder, one after the other.
  unfoldable pub run : List Call → Recorder W → Recorder W
  run [] recorder = recorder
  run (header code ∷ calls) recorder = run calls (recorder_write_header writer code recorder)
  run (body s ∷ calls) recorder = run calls (recorder_write writer s recorder).1

  -- The bodies on the connection itself, and how many bytes of them it took.
  unfoldable pub write_all : List Str → W → W
  write_all [] w = w
  write_all (s ∷ rest) w = write_all rest (writer.write s w).1

  unfoldable pub count_all : List Str → W → ℕ
  count_all [] w = 0
  count_all (s ∷ rest) w = (writer.write s w).0.0 + count_all rest (writer.write s w).1

  -- What the recorder knows and what the connection saw, of a response with this status.
  pub record HasWritten (recorder : Recorder W) (status : ℕ) (bytes : ℕ) (w : W) : Type 0 where
    pub status_is : status_code recorder ≡ status
    pub bytes_are : recorder.bytes_written ≡ bytes
    pub connection : recorder.inner ≡ w

  abbrev with_status : ℕ → ℕ → W → Recorder W
  with_status code n w = record { status = code; bytes_written = n; inner = w }

  -- Once a status is set, it stays, and only bodies go through.
  run-with_status :
      (calls : List Call) (code n : ℕ) (w : W)
      → code ≢ 0
      → run calls (with_status code n w)
        ≡ with_status code (n + count_all (bodies calls) w) (write_all (bodies calls) w)
  unfolding run bodies write_all count_all recorder_write_header recorder_write write_body
  run-with_status [] code n w set = ap (λ m. with_status code m w) (omega arith)
  run-with_status (header other ∷ calls) code n w set =
      rw (nonzero code set) (run-with_status calls code n w set)
  run-with_status (body s ∷ calls) code n w set = rw (nonzero code set) (
      run-with_status calls code (n + (writer.write s w).0.0) (writer.write s w).1 set
      ∙ ap (λ m. with_status code m (write_all (bodies calls) (writer.write s w).1)) (omega arith))

  -- If a handler makes a call and sets no status that is 0, then through the recorder the connection
  -- sees one status, the one that it sets first if that is its first call and else 200, and then the
  -- bodies that it writes, in their order; the recorder reports this status and the number of bytes
  -- that the connection took.
  pub run-HasWritten :
      (call : Call) (calls : List Call) (w : W)
      → All IsCall (call ∷ calls)
      → let w' = writer.write_header (first_status (call ∷ calls)) w in
        HasWritten
          (run (call ∷ calls) (new_recorder w))
          (first_status (call ∷ calls))
          (count_all (bodies (call ∷ calls)) w')
          (write_all (bodies (call ∷ calls)) w')
  unfolding run bodies write_all count_all first_status recorder_write_header recorder_write
      write_body status_code
  run-HasWritten (header code) calls w (set, rest) =
      let done = run-with_status calls code 0 (writer.write_header code w) set in
      record {
        status_is = rw (done, nonzero code set) refl;
        bytes_are = rw done (omega arith);
        connection = rw done refl;
      }
  run-HasWritten (body s) calls w h =
      let w' = (writer.write s (writer.write_header 200 w)).1 in
      let done =
        run-with_status calls 200 (0 + (writer.write s (writer.write_header 200 w)).0.0) w'
          (λ e. omega (arith, e)) in
      record {
        status_is = rw done refl;
        bytes_are = rw done (omega arith);
        connection = rw done refl;
      }
