-- ===== src/Signaling/Events/Keep.antt =====
-- Whatever happens to a signaling worker, its table stays well formed.
use dcj_rtc.Signaling.Worker.{Worker}
use dcj_rtc.Signaling.Events.Allowed.{Allowed}
