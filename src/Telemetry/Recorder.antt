-- ===== src/Telemetry/Recorder.antt =====
-- responseRecorder (internal/telemetry/http.go): the writer between a handler and the connection.
pub mod Once
use cloud_native_service_con.Base.{Option, if◌then◌else◌, not, ◌+◌, ◌==◌, ℕ}
use cloud_native_service_con.Text.{Str}
use cloud_native_service_con.Errors.{Error}

-- http.ResponseWriter, a library, over the states `W` of the connection
pub record ResponseWriter (W : Type 0) : Type 0 where
  pub write_header : ℕ → W → W
  pub write : Str → W → (ℕ × Option Error) × W

-- responseRecorder, with the state of the embedded writer
pub record Recorder (W : Type 0) : Type 0 where
  pub status : ℕ
  pub bytes_written : ℕ
  pub inner : W

-- &responseRecorder{ResponseWriter: writer}
abbrev pub new_recorder : {W : Type 0} → W → Recorder W
new_recorder w = record { status = 0; bytes_written = 0; inner = w }

-- statusCode
unfoldable pub status_code : {W : Type 0} → Recorder W → ℕ
status_code recorder = if recorder.status == 0 then 200 else recorder.status

module _ {W : Type 0} (writer : ResponseWriter W) where
  -- WriteHeader
  unfoldable pub recorder_write_header : ℕ → Recorder W → Recorder W
  recorder_write_header code recorder =
      if not (recorder.status == 0)
      then recorder
      else record recorder { status = code; inner = writer.write_header code recorder.inner }

  -- What Write does once a status is set.
  unfoldable pub write_body : Str → Recorder W → (ℕ × Option Error) × Recorder W
  write_body body recorder =
      let (answer, w') = writer.write body recorder.inner in
      (answer, record recorder { bytes_written = recorder.bytes_written + answer.0; inner = w' })

  -- Write
  unfoldable pub recorder_write : Str → Recorder W → (ℕ × Option Error) × Recorder W
  unfolding write_body recorder_write_header
  recorder_write body recorder =
      write_body body
        (if recorder.status == 0 then recorder_write_header 200 recorder else recorder)
