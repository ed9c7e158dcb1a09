-- ===== src/Tools.antt =====
-- tools/console_clients: the command line tools that are built on the clients.
pub mod Options
pub mod Topics
pub mod ConsoleConsumer
pub mod ConsoleProducer
pub mod ProducerPerf
pub mod ConsumerPerf
mod Tests
