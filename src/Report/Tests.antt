-- ===== src/Report/Tests.antt =====
-- A report of src/report.cpp on a session whose server name and rule hold markup.
use nano_ngfw.Prelude.{◌≡◌, false, true, [], ◌∷◌, codes, pos}
use nano_ngfw.Policy.{Zone, Verdict, Policy}
use nano_ngfw.Flow.{PacketMeta, Session, empty_table, default_timeouts, fresh}
use nano_ngfw.Nat.{no_pool}
use nano_ngfw.Engine.{Engine}
use nano_ngfw.Capture.{start}
use nano_ngfw.Output.{stream}
use nano_ngfw.Report.{html_text}
use nano_ngfw.Report.Markup.{markup, after}
use nano_ngfw.Report.Document.{report_tag_parts, html_text-tags}

abbrev asking : PacketMeta
asking = record {
  src_ip = 0x0a000001;
  dst_ip = 0x08080808;
  src_port = 1234;
  dst_port = 443;
  proto = 6;
  ts_us = 0;
  bytes = 60;
}

abbrev pub web_session : Session
web_session = record (fresh asking 0) {
  app = codes "ssl";
  app_latched = true;
  sni = codes "<script>";
  matched_rule = pos 0;
}

abbrev policy : Policy
policy = record {
  rules =
      record {
        name = codes "</table>";
        source = Zone.any;
        target = Zone.any;
        services = [];
        applications = [];
        action = Verdict.allow;
      }
      ∷ [];
  zones = [];
}

abbrev engine : Engine
engine = record (start policy no_pool default_timeouts false) {
  flows = record empty_table { sessions = web_session ∷ [] };
}

html_text-tags_example :
    (markup false (html_text engine (codes "a.pcap") [])
      ≡ stream (report_tag_parts engine.counters engine.flows.sessions))
    × (after false (html_text engine (codes "a.pcap") []) ≡ false)
html_text-tags_example = html_text-tags engine (codes "a.pcap") []
