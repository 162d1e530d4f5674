-- ===== src/Stream/Start/Tests.antt =====
-- A channel that is started from the bytes of its PMT, as concrete data (stream_controller.c).
use ppu_tvi_os.Tables.Zeroed.{no_pmt}
use ppu_tvi_os.Common.{◌≡◌, refl, [], arith}
use ppu_tvi_os.Common.Int.{pos}
use ppu_tvi_os.Common.Outcome.{Returns}
use ppu_tvi_os.Tables.Pmt.Layout.{infos}
use ppu_tvi_os.Tables.Pmt.Tests.{
  pmt_header, pmt_header-IsPmtHeader, program_info, video_and_audio, video_and_audio-IsEntry, crc,
}
use ppu_tvi_os.Stream.Pids.{is_video, is_audio}
use ppu_tvi_os.Stream.Pids.Choice.{first_pid}
use ppu_tvi_os.Stream.Start.{start_channel}
use ppu_tvi_os.Stream.Start.Broadcast.{start_channel-encode_pmt}
use ppu_tvi_os.Stream.Tests.{willing, running, four_services, service}

start_channel-encode_pmt_example : Returns (start_channel willing (pos 1) running) (λ c'.
    c'.current_channel ≡ record {
      program_number = pos 2;
      audio_pid = first_pid is_audio (infos video_and_audio);
      video_pid = first_pid is_video (infos video_and_audio);
    })
start_channel-encode_pmt_example =
    start_channel-encode_pmt willing running four_services service 1 refl refl refl refl pmt_header
      program_info video_and_audio crc [] no_pmt pmt_header-IsPmtHeader video_and_audio-IsEntry
      (omega arith) refl refl refl refl refl refl
