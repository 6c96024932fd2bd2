-- ===== src/Tests.antt =====
-- Runs of the models at small inputs, and the theorems at inputs that meet their hypotheses.
mod Rle
mod Cooldown
mod Spsc
mod Canvas
mod Master
mod Broadcast
mod Worker
mod Framing
mod Service
mod Clock
mod EndToEnd
mod EventLoop
mod Client
mod Startup
mod Server
mod Transport
mod Transmit
mod Boot
mod Csv
mod Resync
mod Tls
mod Served
