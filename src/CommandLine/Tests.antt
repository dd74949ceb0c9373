-- ===== src/CommandLine/Tests.antt =====
-- A command line for src/main.cpp whose rule file has the name of an option.
use nano_ngfw.Prelude.{◌≡◌, refl, true, false, none, some, Text, codes, pos, arith}
use nano_ngfw.CommandLine.{Options, command}
use nano_ngfw.CommandLine.RoundTrip.{command_line, IsCommand, command-command_line}

abbrev capture : Text
capture = codes "day1.pcap"

abbrev options : Options
options = record {
  path = some capture;
  policy_path = some (codes "--nat");
  html_path = none;
  nat_ip = 0xc6336401;
  midstream = true;
  stats_only = false;
  detail_id = pos 3;
}

options-IsCommand : IsCommand capture options
options-IsCommand = record {
  asked = refl;
  operand = refl;
  address = omega arith;
  detail = omega arith;
}

command-command_line_example : command (command_line capture options) ≡ some (capture, options)
command-command_line_example = command-command_line capture options options-IsCommand
